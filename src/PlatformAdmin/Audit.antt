-- ===== src/PlatformAdmin/Audit.antt =====
-- What a grant and a revocation write, with the intent of their audit record
-- (identity/platformadmin/platformadmin.go).
use terraform_suite_identity.Common.{
  ℕ, Str, nat_eq, List, [], ◌∷◌, ◌++◌, filter, count_if, Bool, true, false, not, Option, none, some,
  Result, ok, err, >>=-eq-ok, >>-eq-ok, ok_inj, no_error, require, require-ok, ◌≡◌, refl, sym, ap,
  subst, ◌∙◌,
}
use terraform_suite_identity.PlatformAdmin.{
  Grant, CarrierError, already_platform_admin, removed_rows, database, audit, Carrier, Surroundings,
  AuditIntentWriter, Predicate, order_grants, names, holds_grant, write_intent, grant_body,
  split_grants, lock_carrier, remove_grant, revoke_body,
}

write_intent_lem :
    (w : AuditIntentWriter) (c c' : Carrier)
    → write_intent w c ≡ ok c'
    → (c'.grants ≡ c.grants) × (w c.intents ≡ ok c'.intents)
unfolding write_intent
write_intent_lem w c c' h = by_answer (w c.intents) refl h
  where
    by_answer :
        (o : Result ℕ (List Str))
        → w c.intents ≡ o
        → (let r : Result CarrierError Carrier = elim o [
          | err e ↦ err (audit e)
          | ok intents ↦ ok (record c { intents = intents })
        ] in
            r)
          ≡ ok c'
        → (c'.grants ≡ c.grants) × (w c.intents ≡ ok c'.intents)
    by_answer (err e) a k = cc k
    by_answer (ok intents) a k = (
      ap (λ (x : Carrier). x.grants) (sym (ok_inj k)),
      a ∙ ap (λ (x : Carrier). ok x.intents) (ok_inj k),
    )

-- The row was written, and the intent with it.
abbrev pub Granted : Grant → AuditIntentWriter → Carrier → Carrier → Type 0
Granted g w c c' =
    (holds_grant g.user_id c.grants ≡ false)
    × (c'.grants ≡ c.grants ++ g ∷ [])
    × (w c.intents ≡ ok c'.intents)

untrue : (b : Bool) → not b ≡ true → b ≡ false
untrue true h = cc h
untrue false h = refl

pub grant_body-Granted :
    (around : Surroundings) (g g' : Grant) (w : AuditIntentWriter) (c c' : Carrier)
    → grant_body around g w c ≡ ok (c', g')
    → Granted g w c c'
unfolding grant_body
grant_body-Granted around g g' w c c' h =
    let h1 = (>>-eq-ok (no_error database around.reads) _ _ h).1 in
    let (fresh, h2) =
      >>-eq-ok (require (not (holds_grant g.user_id c.grants)) already_platform_admin) _ _ h1 in
    let (written, a, h3) =
      >>=-eq-ok (write_intent w (record c { grants = c.grants ++ g ∷ [] })) _ _ h2 in
    let same = ap (λ (x : Carrier × Grant). x.0) (ok_inj h3) in
    let (kept, intent) =
      write_intent_lem w (record c { grants = c.grants ++ g ∷ [] }) c'
        (a ∙ ap (λ (x : Carrier). ok x) same) in
    (untrue _ (require-ok _ _ fresh), kept, intent)

abbrev pub others : Str → Carrier → List Grant
others user_id c = (split_grants user_id (order_grants c.grants) none []).1

-- The others passed the predicate, the row is gone, and the intent was written.
abbrev pub Revoked : Str → Predicate → AuditIntentWriter → Carrier → Carrier → Type 0
Revoked user_id keeps w c c' =
    (keeps (others user_id c) ≡ none)
    × (c'.grants ≡ filter (λ g. not (names user_id g)) c.grants)
    × (w c.intents ≡ ok c'.intents)

no_error-none : {C E : Type 0} (wrap : C → E) (o : Option C) → no_error wrap o ≡ ok tt → o ≡ none
no_error-none wrap none h = refl
no_error-none wrap (some e) h = cc h

remove_grant-Revoked :
    (around : Surroundings) (u : Str) (keeps : Predicate) (w : AuditIntentWriter) (c c' : Carrier)
    (g : Grant) (target : Option Grant) (remaining : List Grant)
    → remaining ≡ others u c
    → remove_grant around u keeps w c (target, remaining) ≡ ok (c', g)
    → Revoked u keeps w c c'
unfolding remove_grant
remove_grant-Revoked around u keeps w c c' g none remaining e h = cc h
remove_grant-Revoked around u keeps w c c' g (some target) remaining e h =
    let (passed, h1) = >>-eq-ok (no_error (λ (x : CarrierError). x) (keeps remaining)) _ _ h in
    let h2 = (>>-eq-ok (no_error database around.deletes) _ _ h1).1 in
    let h3 = (>>-eq-ok (no_error database around.deleted_rows) _ _ h2).1 in
    let n = count_if (names u) c.grants in
    let h4 = (>>-eq-ok (require (nat_eq n 1) (removed_rows n)) _ _ h3).1 in
    let cut = record c { grants = filter (λ g. not (names u g)) c.grants } in
    let (written, a, h5) = >>=-eq-ok (write_intent w cut) _ _ h4 in
    let same = ap (λ (x : Carrier × Grant). x.0) (ok_inj h5) in
    let (kept, intent) = write_intent_lem w cut c' (a ∙ ap (λ (x : Carrier). ok x) same) in
    (
      subst (λ l. keeps l ≡ none) e
          (no_error-none (λ (x : CarrierError). x) (keeps remaining) passed),
      kept,
      intent,
    )

pub revoke_body-Revoked :
    (around : Surroundings) (u : Str) (keeps : Predicate) (w : AuditIntentWriter) (c c' : Carrier)
    (g : Grant)
    → revoke_body around u keeps w c ≡ ok (c', g)
    → Revoked u keeps w c c'
unfolding revoke_body lock_carrier
revoke_body-Revoked around u keeps w c c' g h =
    let ((target, remaining), a, h1) = >>=-eq-ok (lock_carrier around u c) _ _ h in
    let split = (>>-eq-ok (no_error database around.reads) _ _ a).1 in
    remove_grant-Revoked around u keeps w c c' g target remaining
      (ap (λ (x : Option Grant × List Grant). x.1) (sym (ok_inj split))) h1
