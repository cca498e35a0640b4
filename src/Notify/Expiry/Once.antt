-- ===== src/Notify/Expiry/Once.antt =====
-- How often a key's owner is warned (identity/notify/api_key_expiry.go), by any number of replicas.
use terraform_suite_identity.Common.{
  ℕ, ◌+◌, ◌≤◌, Str, ◌==◌, eq_iff, List, [], ◌∷◌, ◌++◌, map, filter, Bool, true, false, not, Option,
  if◌then◌else◌, ◌≡◌, ◌≢◌, refl, sym, subst, arith,
}
use terraform_suite_identity.Notify.Expiry.{
  ExpiryConfig, ApiKeyExpiryNotifier, Answers, Sends, check_key, Surroundings, run_check,
}
use terraform_suite_identity.Notify.Keys.{KeyRow}
use terraform_suite_identity.Notify.Expiry.Spends.{
  has_open, as_count, allowed, warnings, warnings-append, Spends, rows_kept-Spends,
  check_key-Spends, run_check-Spends,
}

-- What happens to the table: a whole check, one round of another replica's check with a row that it
-- read at any time before, and the other statements on api_keys, which keep the mark.
pub data Act : Type 0 where
  checks : ApiKeyExpiryNotifier → ExpiryConfig → Surroundings → Act
  rounds : ApiKeyExpiryNotifier → ExpiryConfig → Answers → Option KeyRow → Act
  inserts : KeyRow → Act
  deletes : Str → Act
  renews : Str → Option ℕ → Act

unfoldable pub renew : Str → Option ℕ → List KeyRow → List KeyRow
renew id e rows = map (λ k. if k.id == id then record k { expires_at = e } else k) rows

abbrev pub act : Act → List KeyRow → List KeyRow × Sends
act (checks n cfg around) rows = run_check n cfg around rows
act (rounds n cfg around k) rows = check_key n cfg around k rows
act (inserts k) rows = (k ∷ rows, [])
act (deletes id) rows = (filter (λ k. not (k.id == id)) rows, [])
act (renews id e) rows = (renew id e rows, [])

unfoldable pub history : List Act → List KeyRow → Sends
history [] rows = []
history (a ∷ acts) rows = let (rows', sent) = act a rows in sent ++ history acts rows'

-- The identifiers of inserted rows are new.
abbrev pub NotInserted : Str → List Act → Type 0
NotInserted id [] = Unit {0}
NotInserted id (inserts k ∷ acts) = (k.id ≢ id) × NotInserted id acts
NotInserted id (checks n cfg around ∷ acts) = NotInserted id acts
NotInserted id (rounds n cfg around k ∷ acts) = NotInserted id acts
NotInserted id (deletes j ∷ acts) = NotInserted id acts
NotInserted id (renews j e ∷ acts) = NotInserted id acts

delete-open :
    (id j : Str) (rows : List KeyRow)
    → allowed id (filter (λ k. not (k.id == j)) rows) ≤ allowed id rows
unfolding filter has_open
delete-open id j [] = omega arith
delete-open id j (k ∷ ks) = ground (arith, delete-open id j ks)

renew-open :
    (id j : Str) (e : Option ℕ) (rows : List KeyRow)
    → has_open id (renew j e rows) ≡ has_open id rows
unfolding renew has_open
renew-open id j e [] = refl
renew-open id j e (k ∷ ks) = ground (arith, renew-open id j e ks)

other-open :
    (id : Str) (k : KeyRow) (rows : List KeyRow)
    → (k.id == id) ≡ false
    → has_open id (k ∷ rows) ≡ has_open id rows
unfolding has_open
other-open id k rows e = rw e refl

act-Spends :
    (id : Str) (a : Act) (acts : List Act) (rows : List KeyRow)
    → NotInserted id (a ∷ acts)
    → Spends id rows (act a rows)
act-Spends id (checks n cfg around) acts rows h = run_check-Spends n cfg id around rows
act-Spends id (rounds n cfg around k) acts rows h = check_key-Spends n cfg id around k rows
act-Spends id (inserts k) acts rows h = inserted (k.id == id) refl (rows_kept-Spends id rows)
  where
    inserted :
        (b : Bool) → (k.id == id) ≡ b → Spends id rows (rows, []) → Spends id rows (k ∷ rows, [])
    inserted true e s = absurd (h.0 ((eq_iff k.id id).0 e))
    inserted false e s =
        subst (λ b. warnings id [] + as_count b ≤ allowed id rows) (sym (other-open id k rows e)) s
act-Spends id (deletes j) acts rows h =
    let l = delete-open id j rows in let s = rows_kept-Spends id rows in omega (arith, l, s)
act-Spends id (renews j e) acts rows h =
    subst (λ b. warnings id [] + as_count b ≤ allowed id rows) (sym (renew-open id j e rows))
      (rows_kept-Spends id rows)

history-allowed :
    (id : Str) (acts : List Act) (rows : List KeyRow)
    → NotInserted id acts
    → warnings id (history acts rows) ≤ allowed id rows
unfolding history
history-allowed id [] rows h = let s = rows_kept-Spends id rows in omega (arith, s)
history-allowed id (a ∷ acts) rows h =
    let (rows', sent) = act a rows in
    let now = act-Spends id a acts rows h in
    let later = history-allowed id acts rows' (later_acts a h) in
    let both = warnings-append id sent (history acts rows') in omega (arith, now, later, both)
  where
    later_acts : (a : Act) → NotInserted id (a ∷ acts) → NotInserted id acts
    later_acts (checks n cfg around) h = h
    later_acts (rounds n cfg around k) h = h
    later_acts (inserts k) h = h.1
    later_acts (deletes j) h = h
    later_acts (renews j e) h = h

-- The owner of a key is warned at most once, over every history of checks and of single rounds of the
-- checks of other replicas, with whatever rows these have read and whatever fails, and of inserts,
-- deletions and renewals of keys, where no later key is given the same identifier.
pub warned_once :
    (id : Str) (acts : List Act) (rows : List KeyRow)
    → NotInserted id acts
    → warnings id (history acts rows) ≤ 1
warned_once id acts rows h =
    let l = history-allowed id acts rows h in
    let one = at_most_one (has_open id rows) in omega (arith, l, one)
  where
    at_most_one : (b : Bool) → as_count b ≤ 1
    at_most_one true = omega arith
    at_most_one false = omega arith
