-- ===== src/Notify/Notifier/Tenant.antt =====
-- What a notification and the channel statements reach of another organization
-- (identity/notify/notifier.go and channel_repository.go).
use terraform_suite_identity.Common.{
  ℕ, Str, lit, ◌==◌, List, [], ◌∷◌, filter, branch-if, Bool, true, false, not, ◌||◌, Option, none,
  some, if◌then◌else◌, Result, ok, err, ◌≡◌, refl, ap, ◌∙◌, arith,
}
use terraform_suite_identity.Crypto.{Library}
use terraform_suite_identity.Notify.Channels.{
  ChannelRow, NotificationChannel, ChannelError, ChannelFilter, ChannelQueryOption,
  new_channel_filter, admits,
}
use terraform_suite_identity.Notify.Channels.Statements.{
  named, set_rows, exec, delete, list_enabled_for_event, stamped, record_delivery,
}
use terraform_suite_identity.Notify.Notifier.{
  Outgoing, Notifier, NotifyError, decrypt_target, send_to_target,
}
use terraform_suite_identity.Notify.Notifier.Delivery.{
  Recorder, record_outcome, deliver_target, deliver, deliver_all, Event, claim_dedup, notify_listed,
  notify,
}

-- The rows that a filter does not admit.
abbrev pub hidden : ChannelFilter → List ChannelRow → List ChannelRow
hidden f rows = filter (λ r. not (admits f r)) rows

module _ (f : ChannelFilter) where
  -- A change of admitted rows that keeps their organizations leaves the hidden rows as they are.
  hidden-set_rows :
      (selects : ChannelRow → Bool) (change : ChannelRow → ChannelRow) (rows : List ChannelRow)
      → ((r : ChannelRow) → selects r ≡ true → admits f r ≡ true)
      → ((r : ChannelRow) → admits f (change r) ≡ admits f r)
      → hidden f (set_rows selects change rows) ≡ hidden f rows
  unfolding filter
  hidden-set_rows selects change [] only keeps = refl
  hidden-set_rows selects change (r ∷ rs) only keeps =
      by_row (selects r) (admits f r) refl refl (hidden-set_rows selects change rs only keeps)
    where
      by_row :
          (s a : Bool)
          → selects r ≡ s
          → admits f r ≡ a
          → hidden f (set_rows selects change rs) ≡ hidden f rs
          → hidden f ((if s then change r else r) ∷ set_rows selects change rs)
            ≡ (if not a then r ∷ hidden f rs else hidden f rs)
      by_row true true e a ih = rw (keeps r, a) ih
      by_row true false e a ih = cc (only r e, a)
      by_row false true e a ih = rw a ih
      by_row false false e a ih = rw a (ap (λ l. r ∷ l) ih)

  hidden-filter :
      (selects : ChannelRow → Bool) (rows : List ChannelRow)
      → ((r : ChannelRow) → selects r ≡ true → admits f r ≡ true)
      → hidden f (filter (λ r. not (selects r)) rows) ≡ hidden f rows
  unfolding filter
  hidden-filter selects [] only = refl
  hidden-filter selects (r ∷ rs) only =
      let ih = hidden-filter selects rs only in let o = only r in ground (arith, ih, o)

  named-admits : (id : Str) (r : ChannelRow) → named f id r ≡ true → admits f r ≡ true
  named-admits id r h = ground (arith, h)

exec-hidden :
    (f : ChannelFilter) (fails count_fails : Option ℕ) (selects : ChannelRow → Bool)
    (rows rows' : List ChannelRow)
    → hidden f rows' ≡ hidden f rows
    → hidden f (exec fails count_fails selects rows rows').0 ≡ hidden f rows
unfolding exec
exec-hidden f (some e) count_fails selects rows rows' h = refl
exec-hidden f none count_fails selects rows rows' h = h

stamped-admits :
    (f : ChannelFilter) (status message : Str) (now : ℕ) (r : ChannelRow)
    → admits f (stamped status message now r) ≡ admits f r
unfolding admits
stamped-admits f status message now r = refl

module _ (opts : List ChannelQueryOption) where
  record_delivery-hidden :
      (fails count_fails : Option ℕ) (id status message : Str) (now : ℕ) (rows : List ChannelRow)
      → hidden
          (new_channel_filter opts)
          (record_delivery fails count_fails id status message now opts rows).0
        ≡ hidden (new_channel_filter opts) rows
  unfolding record_delivery
  record_delivery-hidden fails count_fails id status message now rows =
      let f = new_channel_filter opts in
      exec-hidden f fails count_fails (named f id) rows
        (set_rows (named f id) (stamped status message now) rows)
        (hidden-set_rows f (named f id) (stamped status message now) rows (named-admits f id)
          (stamped-admits f status message now))

  record_outcome-hidden :
      (n : Notifier) (r : Recorder) (id : Str) (e : Option NotifyError) (rows : List ChannelRow)
      → hidden (new_channel_filter opts) (record_outcome n r id e opts rows)
        ≡ hidden (new_channel_filter opts) rows
  unfolding record_outcome
  record_outcome-hidden n r id none rows =
      record_delivery-hidden r.fails r.count_fails id (lit "sent") [] r.now rows
  record_outcome-hidden n r id (some e) rows =
      record_delivery-hidden r.fails r.count_fails id (lit "failed") (n.error_text e) r.now rows

  deliver_target-hidden :
      (n : Notifier) (r : Recorder) (ch : NotificationChannel) (title message : Str)
      (rows : List ChannelRow) (t : Result NotifyError Str)
      → hidden (new_channel_filter opts) (deliver_target n r ch title message opts rows t).rows
        ≡ hidden (new_channel_filter opts) rows
  unfolding deliver_target
  deliver_target-hidden n r ch title message rows (err e) =
      record_outcome-hidden n r ch.id (some e) rows
  deliver_target-hidden n r ch title message rows (ok target) =
      record_outcome-hidden n r ch.id (send_to_target n ch target title message).1 rows

  module _ (lib : Library) (n : Notifier) (title message : Str) where
    deliver_all-hidden :
        (r : Str → Recorder) (chs : List NotificationChannel) (rows : List ChannelRow)
        → hidden (new_channel_filter opts) (deliver_all lib n r chs title message opts rows).0
          ≡ hidden (new_channel_filter opts) rows
    unfolding deliver_all deliver
    deliver_all-hidden r [] rows = refl
    deliver_all-hidden r (ch ∷ chs) rows =
        deliver_all-hidden r chs (deliver lib n (r ch.id) ch title message opts rows).rows
        ∙ deliver_target-hidden n (r ch.id) ch title message rows (decrypt_target lib n ch)

notify_listed-hidden :
    (lib : Library) (n : Notifier) (r : Str → Recorder) (ev : Event)
    (opts : List ChannelQueryOption) (rows : List ChannelRow)
    (l : Result ChannelError (List NotificationChannel))
    → hidden (new_channel_filter opts) (notify_listed lib n r ev opts rows l).0
      ≡ hidden (new_channel_filter opts) rows
unfolding notify_listed
notify_listed-hidden lib n r ev opts rows (err e) = refl
notify_listed-hidden lib n r ev opts rows (ok chs) =
    deliver_all-hidden opts lib n ev.title ev.message r chs rows

-- Notify changes no row outside of the tenant scope of its options, whatever fails.
pub notify-hidden :
    (lib : Library) (n : Option Notifier) (claim : Str → ℕ → Option Bool) (fails : Option ℕ)
    (r : Str → Recorder) (ev : Event) (opts : List ChannelQueryOption) (rows : List ChannelRow)
    → hidden (new_channel_filter opts) (notify lib n claim fails r ev opts rows).0
      ≡ hidden (new_channel_filter opts) rows
unfolding notify
notify-hidden lib none claim fails r ev opts rows = refl
notify-hidden lib (some n) claim fails r ev opts rows =
    branch-if
      (λ (x : List ChannelRow × List (Str × Outgoing)).
        hidden (new_channel_filter opts) x.0 ≡ hidden (new_channel_filter opts) rows)
      (not n.has_repo || not (claim_dedup claim ev)) _ _ refl
      (notify_listed-hidden lib n r ev opts rows (list_enabled_for_event fails ev.typ opts rows))

-- The rows of the other channels.
abbrev pub other_rows : Str → List ChannelRow → List ChannelRow
other_rows id rows = filter (λ r. not (r.id == id)) rows

other_rows-filter :
    (f : ChannelFilter) (id : Str) (rows : List ChannelRow)
    → other_rows id (filter (λ r. not (named f id r)) rows) ≡ other_rows id rows
unfolding filter
other_rows-filter f id [] = refl
other_rows-filter f id (r ∷ rs) = let ih = other_rows-filter f id rs in ground (arith, ih)

exec-other_rows :
    (id : Str) (fails count_fails : Option ℕ) (selects : ChannelRow → Bool)
    (rows rows' : List ChannelRow)
    → other_rows id rows' ≡ other_rows id rows
    → other_rows id (exec fails count_fails selects rows rows').0 ≡ other_rows id rows
unfolding exec
exec-other_rows id (some e) count_fails selects rows rows' h = refl
exec-other_rows id none count_fails selects rows rows' h = h

filter-rest :
    (selects : ChannelRow → Bool) (rows : List ChannelRow)
    → filter selects (filter (λ r. not (selects r)) rows) ≡ []
unfolding filter
filter-rest selects [] = refl
filter-rest selects (r ∷ rs) = let ih = filter-rest selects rs in ground (arith, ih)

exec-named :
    (f : ChannelFilter) (id : Str) (fails count_fails : Option ℕ) (rows rows' : List ChannelRow)
    → filter (named f id) rows' ≡ []
    → filter (named f id) (exec fails count_fails (named f id) rows rows').0
      ≡ elim fails [ some e ↦ filter (named f id) rows | none ↦ [] ]
unfolding exec
exec-named f id (some e) count_fails rows rows' h = refl
exec-named f id none count_fails rows rows' h = h

-- A deletion, of any channel and whatever fails, leaves the rows outside of the tenant scope of its
-- options and the rows of the other channels as they are; no row of the channel is left in the scope
-- if its statement does not fail, and all of them are if it does.
pub delete_tenant :
    (fails count_fails : Option ℕ) (id : Str) (opts : List ChannelQueryOption)
    (rows : List ChannelRow)
    → let f = new_channel_filter opts in
      let rows' = (delete fails count_fails id opts rows).0 in
      (hidden f rows' ≡ hidden f rows)
      × (other_rows id rows' ≡ other_rows id rows)
      × (filter (named f id) rows' ≡ elim fails [ some e ↦ filter (named f id) rows | none ↦ [] ])
unfolding delete
delete_tenant fails count_fails id opts rows =
    let f = new_channel_filter opts in
    let rest = filter (λ r. not (named f id r)) rows in
    (
      exec-hidden f fails count_fails (named f id) rows rest
          (hidden-filter f (named f id) rows (named-admits f id)),
      exec-other_rows id fails count_fails (named f id) rows rest (other_rows-filter f id rows),
      exec-named f id fails count_fails rows rest (filter-rest (named f id) rows),
    )
