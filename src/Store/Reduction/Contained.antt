-- ===== src/Store/Reduction/Contained.antt =====
-- The keys that a committed reduction leaves, against the authority that the tables then hold.
use terraform_suite_identity.Common.{
  ℕ, Str, contains, In, List, [], ◌∷◌, Bool, true, false, Result, ok, err, >>=-eq-ok, >>-eq-ok,
  ok_inj, no_error, ◌≡◌, ◌⊎◌, inl, inr, refl, sym, ap, subst, ◌∙◌, arith,
}
use terraform_suite_identity.Common.Assoc.{Assoc, get}
use terraform_suite_identity.Auth.Scopes.{ReadWritePairs, has_scope}
use terraform_suite_identity.Store.Tables.{Key, Db, StoreError, database, Faults}
use terraform_suite_identity.Store.Sweep.{Plan, empty_plan, decide, revoke}
use terraform_suite_identity.Store.Sweep.Decisions.{
  IsCovered, IsDistinct, sweep-IsCovered, sweep-keeps,
}
use terraform_suite_identity.Store.Reduction.{
  Reduced, AppCredentials, or_nil, retained_scopes, derived, sweep_derived_keys, keep_own,
  sweep_reduced, reduction,
}
use terraform_suite_identity.Store.Reduction.Retained.{authority, retain_rows_lem}

abbrev pub keys_of : Db × Reduced → List Key
keys_of (db, red) = db.keys

-- The decision the sweep is made of, and what it keeps of the tables.
sweep_inv :
    (f : Faults) (rw_pairs : ReadWritePairs) (u : Str) (os : List Str) (db db' : Db) (red : Reduced)
    → sweep_derived_keys f rw_pairs u os db ≡ ok (db', red)
    → (retained : Assoc (List Str)) × (plan : Plan) × (swept : List Key × ℕ) × (retained_scopes f u
          os db
        ≡ ok retained)
      × (decide (derived u os) (λ k. or_nil (get retained k.org_id)) rw_pairs db.keys empty_plan
          ≡ ok plan)
      × (revoke f plan.doomed db.keys ≡ ok swept)
      × (db' ≡ record db { keys = swept.0 })
      × (red.organizations ≡ os)
unfolding sweep_derived_keys
sweep_inv f rw_pairs u os db db' red h =
    let (retained, a, h1) = >>=-eq-ok (retained_scopes f u os db) _ _ h in
    let (b, h2) = >>-eq-ok (no_error database f.reads_keys) _ _ h1 in
    let (plan, c, h3) =
      >>=-eq-ok
        (decide (derived u os) (λ k. or_nil (get retained k.org_id)) rw_pairs db.keys empty_plan) _
        _ h2 in
    let (swept, d, h4) = >>=-eq-ok (revoke f plan.doomed db.keys) _ _ h3 in
    let e = ok_inj h4 in
    (
      retained,
      plan,
      swept,
      a,
      c,
      d,
      ap (λ (x : Db × Reduced). x.0) (sym e),
      ap (λ (x : Db × Reduced). x.1.organizations) (sym e),
    )

-- What stands in the tables after the reduction and the sweep, before the application's part.
abbrev pub Swept :
    (u : Str) (rw_pairs : ReadWritePairs) (os : List Str) (before after : Db) → Type 0
Swept u rw_pairs os before after =
    ((k : Key)
      → In k after.keys
      → derived u os k ≡ true
      → IsCovered (λ k. authority after u k.org_id) rw_pairs k)
    × (after.members ≡ before.members)
    × (IsDistinct before.keys
        → (k : Key) → In k before.keys
        → (derived u os k ≡ false) ⊎ IsCovered (λ k. authority after u k.org_id) rw_pairs k
        → In k after.keys)

derived-asked :
    (u : Str) (os : List Str) (k : Key) → derived u os k ≡ true → contains os k.org_id ≡ true
derived-asked u os k h = ground arith

sweep-Swept :
    (f : Faults) (rw_pairs : ReadWritePairs) (u : Str) (os : List Str) (db db' : Db) (red : Reduced)
    → sweep_derived_keys f rw_pairs u os db ≡ ok (db', red)
    → Swept u rw_pairs os db db'
unfolding authority retained_scopes get
sweep-Swept f rw_pairs u os db db' red h =
    let (retained, plan, swept, a, c, d, e, g) = sweep_inv f rw_pairs u os db db' red h in
    let (b, rows) = >>-eq-ok (no_error database f.reads_authority) _ _ a in
    let scopes = λ (k : Key). or_nil (get retained k.org_id) in
    let all = sweep-IsCovered scopes rw_pairs (derived u os) f db.keys swept.0 swept.1 plan c d in
    let same = λ (k : Key) (s : derived u os k ≡ true).
      retain_rows_lem db.templates u k.org_id os db.members [] retained (derived-asked u os k s)
        rows in
    subst (Swept u rw_pairs os db) (sym e) (
      λ k i s. moved rw_pairs k _ _ (same k s) ((all k i).1 s),
      refl,
      λ distinct k i spared.
          sweep-keeps scopes rw_pairs (derived u os) f db.keys swept.0 swept.1 plan distinct c d k i
            (spared_by rw_pairs k (derived u os k) _ _ refl (same k) spared),
    )
  where
    moved :
        (rw_pairs : ReadWritePairs) (k : Key) (old new : List Str)
        → old ≡ new
        → IsCovered (λ k. old) rw_pairs k
        → IsCovered (λ k. new) rw_pairs k
    moved rw_pairs k old new e (have, decoded, granted) =
        (have, decoded, λ t j. subst (λ x. has_scope x t rw_pairs ≡ true) e (granted t j))

    spared_by :
        (rw_pairs : ReadWritePairs) (k : Key) (b : Bool) (old new : List Str)
        → derived u os k ≡ b
        → (derived u os k ≡ true → old ≡ new)
        → (derived u os k ≡ false) ⊎ IsCovered (λ k. new) rw_pairs k
        → (derived u os k ≡ false) ⊎ IsCovered (λ k. old) rw_pairs k
    spared_by rw_pairs k b old new e same (inl other) = inl other
    spared_by rw_pairs k false old new e same (inr covered) = inl e
    spared_by rw_pairs k true old new e same (inr (have, decoded, granted)) = inr (
      have,
      decoded,
      λ t j. subst (λ x. has_scope x t rw_pairs ≡ true) (sym (same e)) (granted t j),
    )

keep_own-Swept :
    (rw_pairs : ReadWritePairs) (u : Str) (before db db' : Db) (red red' : Reduced)
    (answer : Result ℕ (List Str))
    → Swept u rw_pairs red.organizations before db
    → keep_own db red answer ≡ ok (db', red')
    → Swept u rw_pairs red'.organizations before db'
unfolding keep_own authority
keep_own-Swept rw_pairs u before db db' red red' (err e) s h = cc h
keep_own-Swept rw_pairs u before db db' red red' (ok own) s h =
    subst (λ (x : Db × Reduced). Swept u rw_pairs x.1.organizations before x.0) (ok_inj h) s

keep_own-same :
    (db db' : Db) (red red' : Reduced) (answer : Result ℕ (List Str))
    → keep_own db red answer ≡ ok (db', red')
    → red'.organizations ≡ red.organizations
unfolding keep_own
keep_own-same db db' red red' (err e) h = cc h
keep_own-same db db' red red' (ok own) h =
    ap (λ (x : Db × Reduced). x.1.organizations) (sym (ok_inj h))

-- No key is derived from an empty list of organizations.
nothing-Swept : (rw_pairs : ReadWritePairs) (u : Str) (db : Db) → Swept u rw_pairs [] db db
unfolding contains
nothing-Swept rw_pairs u db = (λ k i s. cc (derived-asked u [] k s), refl, λ distinct k i spared. i)

-- What a reduction that succeeds did before its commit: its statement, then the sweep.
abbrev pub Reduces :
    ReadWritePairs → Str → (Db → Result StoreError (Db × List Str)) → Db → Db × Reduced → Type 0
Reduces rw_pairs u reduce db (db', red) =
    (middle : Db) × (reduce db ≡ ok (middle, red.organizations))
    × Swept u rw_pairs red.organizations middle db'

sweep_reduced-Swept :
    (f : Faults) (rw_pairs : ReadWritePairs) (u : Str) (app : AppCredentials) (db db' : Db)
    (os : List Str) (red : Reduced)
    → sweep_reduced f rw_pairs u app db os ≡ ok (db', red)
    → (red.organizations ≡ os) × Swept u rw_pairs red.organizations db db'
unfolding sweep_reduced
sweep_reduced-Swept f rw_pairs u app db db' [] red h =
    let same = ap (λ (x : Db × Reduced). x.1.organizations) (sym (ok_inj h)) in
    (
      same,
      subst (λ (x : Db × Reduced). Swept u rw_pairs x.1.organizations db x.0) (ok_inj h)
          (nothing-Swept rw_pairs u db),
    )
sweep_reduced-Swept f rw_pairs u app db db' (o ∷ os) red h =
    let ((db2, red2), a, b) = >>=-eq-ok (sweep_derived_keys f rw_pairs u (o ∷ os) db) _ _ h in
    let (retained, plan, swept, a1, c, d, e, same) =
      sweep_inv f rw_pairs u (o ∷ os) db db2 red2 a in
    let s =
      subst (λ os. Swept u rw_pairs os db db2) (sym same)
        (sweep-Swept f rw_pairs u (o ∷ os) db db2 red2 a) in
    (
      keep_own-same db2 db' red2 red (app red2 db2.own) b ∙ same,
      keep_own-Swept rw_pairs u db db2 db' red2 red (app red2 db2.own) s b,
    )

pub reduction-Reduces :
    (f : Faults) (rw_pairs : ReadWritePairs) (u : Str) (app : AppCredentials)
    (reduce : Db → Result StoreError (Db × List Str)) (db db' : Db) (red : Reduced)
    → reduction f rw_pairs u app reduce db ≡ ok (db', red)
    → Reduces rw_pairs u reduce db (db', red)
unfolding reduction
reduction-Reduces f rw_pairs u app reduce db db' red h =
    let ((middle, os), a, b) = >>=-eq-ok (reduce db) _ _ h in
    let (same, s) = sweep_reduced-Swept f rw_pairs u app middle db' os red b in
    (middle, subst (λ os. reduce db ≡ ok (middle, os)) (sym same) a, s)
