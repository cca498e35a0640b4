-- ===== src/Notify/Notifier/Target.antt =====
-- The binding of a channel's target to its row (identity/notify/notifier.go, with the token cipher).
use terraform_suite_identity.Common.{
  ℕ, Str, lit, ◌==◌, ◌&&◌, map, is_empty, List, [], ◌++◌, length, Bool, true, false, Option, none,
  some, if◌then◌else◌, Result, ok, err, ok_inj, ◌≡◌, ◌≢◌, refl, ap, ◌∙◌,
}
use mathlib.Core.List.{append_cancel_left, append_cancel_right}
use terraform_suite_identity.Crypto.{
  Bytes, Library, CipherError, TokenCipher, seal_with_context, open_with_context_or_legacy,
}
use terraform_suite_identity.Crypto.Sealed.{LibraryLaws}
use terraform_suite_identity.Crypto.Context.{context_bound}
use terraform_suite_identity.Notify.Channels.{
  ChannelRow, NotificationChannel, ChannelQueryOption, new_channel_filter, admits,
}
use terraform_suite_identity.Notify.Channels.Statements.{exec, record_delivery}
use terraform_suite_identity.Notify.Notifier.{
  target_context, Notifier, NotifyError, decrypt, no_target, no_key, decrypt_target,
}
use terraform_suite_identity.Notify.Notifier.Delivery.{
  Recorder, record_outcome, deliver_target, deliver,
}

target_context_inj : (a b : Str) → target_context a ≡ target_context b → a ≡ b
unfolding target_context
target_context_inj a b h = append_cancel_right a b (lit ":encrypted_target") (
    append_cancel_left (lit "identity/notify:notification_channel:") (a ++ lit ":encrypted_target")
      (b ++ lit ":encrypted_target") h)

target_context-ne-nil : (a : Str) → target_context a ≢ []
unfolding target_context
target_context-ne-nil a h = cc h

-- A target that is read was opened under the row's own context.
decrypt_target-ok :
    (lib : Library) (n : Notifier) (ch : NotificationChannel) (target : Str)
    → decrypt_target lib n ch ≡ ok target
    → (tc : TokenCipher) × (bound : Bool) × (open_with_context_or_legacy lib tc ch.encrypted_target
          (target_context ch.id)
        ≡ ok (target, bound))
unfolding decrypt_target
decrypt_target-ok lib n ch target h = filled (is_empty ch.encrypted_target) n.token_cipher h
  where
    opened_target :
        (tc : TokenCipher) (r : Result CipherError (Bytes × Bool))
        → open_with_context_or_legacy lib tc ch.encrypted_target (target_context ch.id) ≡ r
        → (elim r [ err e ↦ err (decrypt e) | ok (plaintext, bound) ↦ ok plaintext ]) ≡ ok target
        → (tc : TokenCipher) × (bound : Bool) × (open_with_context_or_legacy lib tc
              ch.encrypted_target
              (target_context ch.id)
            ≡ ok (target, bound))
    opened_target tc (err e) s g = cc g
    opened_target tc (ok (p, b)) s g = (tc, b, s ∙ ap (λ x. ok (x, b)) (ok_inj g))

    filled :
        (b : Bool) (c : Option TokenCipher)
        → (if b then err no_target else elim c [
          | none ↦ err no_key
          | some tc ↦
              elim (open_with_context_or_legacy lib tc ch.encrypted_target (target_context ch.id)) [
                | err e ↦ err (decrypt e)
                | ok (plaintext, bound) ↦ ok plaintext
              ]
        ])
          ≡ ok target
        → (tc : TokenCipher) × (bound : Bool) × (open_with_context_or_legacy lib tc
              ch.encrypted_target
              (target_context ch.id)
            ≡ ok (target, bound))
    filled true c g = cc g
    filled false none g = cc g
    filled false (some tc) g =
        opened_target tc
          (open_with_context_or_legacy lib tc ch.encrypted_target (target_context ch.id)) refl g

-- The rows after a failed attempt was recorded, or was not.
abbrev pub recorded :
    Option ℕ → Str → Str → ℕ → List ChannelQueryOption → List ChannelRow → List ChannelRow
recorded (some e) id message now opts rows = rows
recorded none id message now opts rows =
    map
      (λ (row : ChannelRow).
        if row.id == id && admits (new_channel_filter opts) row
        then record row {
          last_status = some (lit "failed");
          last_error = if is_empty message then none else some message;
          last_sent_at = some now;
          updated_at = now;
        }
        else row)
      rows

record_delivery-recorded :
    (fails count_fails : Option ℕ) (id message : Str) (now : ℕ) (opts : List ChannelQueryOption)
    (rows : List ChannelRow)
    → (record_delivery fails count_fails id (lit "failed") message now opts rows).0
      ≡ recorded fails id message now opts rows
unfolding record_delivery exec
record_delivery-recorded (some e) count_fails id message now opts rows = refl
record_delivery-recorded none count_fails id message now opts rows = refl

record_outcome-recorded :
    (n : Notifier) (r : Recorder) (id : Str) (e : NotifyError) (opts : List ChannelQueryOption)
    (rows : List ChannelRow)
    → record_outcome n r id (some e) opts rows
      ≡ recorded r.fails id (n.error_text e) r.now opts rows
unfolding record_outcome
record_outcome-recorded n r id e opts rows =
    record_delivery-recorded r.fails r.count_fails id (n.error_text e) r.now opts rows

-- A target that was sealed for one channel and stands in the row of another is not delivered to:
-- nothing goes out and the attempt fails. Where the statement that records it does not fail, the
-- channel's row, if it is in the scope of the options, has the status "failed", the error's text and
-- the time, and no other row changes; where it fails, no row does.
pub moved_target_unsent :
    (lib : Library) (laws : LibraryLaws lib) (n : Notifier) (r : Recorder)
    (ch : NotificationChannel) (tc : TokenCipher) (id : Str) (nonce target title message : Str)
    (opts : List ChannelQueryOption) (rows : List ChannelRow)
    → length nonce ≡ lib.nonce_size
    → seal_with_context lib (some nonce) tc target (target_context id) ≡ ok ch.encrypted_target
    → ch.id ≢ id
    → let d = deliver lib n r ch title message opts rows in
      (d.out ≡ [])
      × ((e : NotifyError) × (d.error ≡ some e)
          × (d.rows ≡ recorded r.fails ch.id (n.error_text e) r.now opts rows))
unfolding deliver
moved_target_unsent lib laws n r ch tc id nonce target title message opts rows sized sealed other =
    by_target (decrypt_target lib n ch) refl
  where
    by_target :
        (t : Result NotifyError Str)
        → decrypt_target lib n ch ≡ t
        → let d = deliver lib n r ch title message opts rows in
          (d.out ≡ [])
          × ((e : NotifyError) × (d.error ≡ some e)
              × (d.rows ≡ recorded r.fails ch.id (n.error_text e) r.now opts rows))
    by_target (ok p) h =
        let (tc', bound, opens) = decrypt_target-ok lib n ch p h in
        let (same, _, _) =
          context_bound lib laws tc tc' nonce target (target_context id) (target_context ch.id) p
            ch.encrypted_target bound sized (target_context-ne-nil id) sealed opens in
        absurd (other (target_context_inj ch.id id same))
    by_target (err e) h =
        let d = ap (deliver_target n r ch title message opts rows) h in
        (
          ap (λ x. x.out) d,
          (
            e,
            ap (λ x. x.error) d,
            ap (λ x. x.rows) d ∙ record_outcome-recorded n r ch.id e opts rows,
          ),
        )
