-- ===== src/Store/Sweep/Deletion.antt =====
-- What the deletion leaves (identity/store/authority_reduction.go).
use terraform_suite_identity.Common.{
  ℕ, Str, contains, In, nat_eq, List, [], ◌∷◌, length, count_if, filter-In, In-filter, Bool, true,
  false, not, Result, ok, ◌>>◌, >>-eq-ok, ok_inj, no_error, require, require-ok, ◌≡◌, ◌↔◌, refl,
  sym, ap, subst, arith,
}
use terraform_suite_identity.Store.Tables.{
  Key, StoreError, miscounted, database, Faults, without_keys,
}
use terraform_suite_identity.Store.Sweep.{revoke}

untrue : (b : Bool) → not b ≡ true → b ≡ false
untrue true h = cc h
untrue false h = refl

negated : (b : Bool) → b ≡ false → not b ≡ true
negated true h = cc h
negated false h = refl

without_keys_iff :
    (ids : List Str) (k : Key) (keys : List Key)
    → In k (without_keys ids keys) ↔ (In k keys × (contains ids k.id ≡ false))
unfolding without_keys
without_keys_iff ids k keys = (
  λ h.
      let (there, t) = filter-In (λ (k : Key). not (contains ids k.id)) k keys h in
      (there, untrue _ t),
  λ (there, t). In-filter (λ (k : Key). not (contains ids k.id)) k keys there (negated _ t),
)

revoke_checks :
    (f : Faults) (b : Bool) (k : Result StoreError (List Key × ℕ)) (y : List Key × ℕ)
    → (do
      no_error database f.deletes_keys
      no_error database f.deleted_rows
      require b miscounted
      k)
      ≡ ok y
    → (b ≡ true) × (k ≡ ok y)
revoke_checks f b k y h =
    let h1 = (>>-eq-ok (no_error database f.deletes_keys) _ y h).1 in
    let h2 = (>>-eq-ok (no_error database f.deleted_rows) _ y h1).1 in
    let (right, h3) = >>-eq-ok (require b miscounted) k y h2 in (require-ok b miscounted right, h3)

-- The deletion keeps exactly the keys whose ids are not listed, and counts the others.
pub revoke_lem :
    (f : Faults) (ids : List Str) (keys keys' : List Key) (n : ℕ)
    → revoke f ids keys ≡ ok (keys', n)
    → ((k : Key) → In k keys' ↔ (In k keys × (contains ids k.id ≡ false))) × (n ≡ length ids)
unfolding revoke contains
revoke_lem f [] keys keys' n h =
    let same = ap (λ (x : List Key × ℕ). x.0) (ok_inj h) in
    (
      λ k. (λ i. (subst (In k) (sym same) i, nothing k.id), λ (i, t). subst (In k) same i),
      ap (λ (x : List Key × ℕ). x.1) (sym (ok_inj h)),
    )
  where
    nothing : (id : Str) → contains [] id ≡ false
    nothing id = refl
revoke_lem f (d ∷ doomed) keys keys' n h =
    let deleted = count_if (λ (k : Key). contains (d ∷ doomed) k.id) keys in
    let swept : Result StoreError (List Key × ℕ) = ok (without_keys (d ∷ doomed) keys, deleted) in
    let enough = nat_eq deleted (length (d ∷ doomed)) in
    let (matches, h3) = revoke_checks f enough swept (keys', n) h in
    let kept = ap (λ (x : List Key × ℕ). x.0) (ok_inj h3) in
    let counted = ap (λ (x : List Key × ℕ). x.1) (ok_inj h3) in
    (
      λ k.
          subst (λ ks. In k ks ↔ (In k keys × (contains (d ∷ doomed) k.id ≡ false))) kept
            (without_keys_iff (d ∷ doomed) k keys),
      ground arith,
    )
