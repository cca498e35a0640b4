-- ===== src/Store/Reduction/Tenant.antt =====
-- The calls of a reducer: what they leave to the keys, and whom they reach.
use terraform_suite_identity.Common.{
  some_inj, Str, contains, In, List, [], ◌∷◌, Bool, true, false, Option, none, some, if◌then◌else◌,
  Result, ok, ok_inj, branch-if, ◌≡◌, ◌⊎◌, inl, inr, refl, sym, ap, subst, arith, ◌≢◌,
}
use terraform_suite_identity.Store.OrgScope.{OrgScope, matches_nothing, permits_organization}
use terraform_suite_identity.Store.Tables.{owned_by, Member, Key, Db, StoreError, Faults}
use terraform_suite_identity.Store.Sweep.Decisions.{IsCovered, IsDistinct}
use terraform_suite_identity.Store.Reduction.{Reduced, AppCredentials, Reducer, derived, run}
use terraform_suite_identity.Store.Reduction.Contained.{Reduces}
use terraform_suite_identity.Store.Reduction.Runs.{run-Reduces, run-states}
use terraform_suite_identity.Store.Reduction.Retained.{authority}
use terraform_suite_identity.Store.Reduction.Statements.{reduce-stays, reduce-keys}
use terraform_suite_identity.Store.Reduction.Operations.{
  Request, remove_member, update_member_role_template, update_member_role,
  remove_all_memberships_for_user, principal, reduce, answer_empty_scope, perform,
}

-- No organization is reported where the scope matches nothing.
answer_empty_scope-organizations :
    (q : Request) (red : Reduced) → answer_empty_scope q ≡ ok red → red.organizations ≡ []
unfolding answer_empty_scope
answer_empty_scope-organizations (remove_member o u) red h = cc h
answer_empty_scope-organizations (update_member_role_template o u i) red h = cc h
answer_empty_scope-organizations (update_member_role o u n) red h = cc h
answer_empty_scope-organizations (remove_all_memberships_for_user u) red h =
    ap (λ (x : Reduced). x.organizations) (sym (ok_inj h))

nothing-derived : (u : Str) (os : List Str) (k : Key) → os ≡ [] → derived u os k ≡ true → ⊥
unfolding contains
nothing-derived u [] k e h = ground arith
nothing-derived u (o ∷ os) k e h = cc e

-- After any call of a reducer that reports success, no key outlives the authority behind it: every
-- key that the principal still has in an organization that the summary reports carries only scopes
-- that the principal's membership there, as the tables now stand, grants.
pub reduction_contained :
    (r : Reducer) (f : Faults) (scope : OrgScope) (app : Option AppCredentials) (q : Request)
    (db : Db) (red : Reduced)
    → (perform (some r) f scope app q db).1 ≡ ok red
    → (k : Key)
    → let after = (perform (some r) f scope app q db).0 in
      In k after.keys
      → derived (principal q) red.organizations k ≡ true
      → IsCovered (λ k. authority after (principal q) k.org_id) r.rw_pairs k
unfolding perform
reduction_contained r f scope app q db red h k = by_scope (matches_nothing scope) h
  where
    outcome : Bool → Db × Result StoreError Reduced
    outcome b =
        if b
        then (db, answer_empty_scope q)
        else run (some r) f (principal q) app (reduce f scope q) db

    by_scope :
        (b : Bool)
        → (outcome b).1 ≡ ok red
        → In k (outcome b).0.keys
        → derived (principal q) red.organizations k ≡ true
        → IsCovered (λ k. authority (outcome b).0 (principal q) k.org_id) r.rw_pairs k
    by_scope true g i s =
        elim (nothing-derived (principal q) red.organizations k
          (answer_empty_scope-organizations q red g) s) [ ]
    by_scope false g i s =
        let (middle, a, swept) = run-Reduces r f (principal q) app (reduce f scope q) db red g in
        swept.0 k i s

-- The tables are as they were, or as the reduction left them.
abbrev States :
    Option Reducer → Faults → OrgScope → Request → Db → Db × Result StoreError Reduced → Type 0
States r f scope q db outcome =
    (outcome.0 ≡ db)
    ⊎ ((r' : Reducer) × (red : Reduced) × (r ≡ some r')
        × Reduces r'.rw_pairs (principal q) (reduce f scope q) db (outcome.0, red))

perform-States :
    (r : Option Reducer) (f : Faults) (scope : OrgScope) (app : Option AppCredentials) (q : Request)
    (db : Db)
    → States r f scope q db (perform r f scope app q db)
unfolding perform run
perform-States none f scope app q db =
    branch-if (States none f scope q db) (matches_nothing scope) (db, answer_empty_scope q) _
      (inl refl) (inl refl)
perform-States (some r) f scope app q db =
    branch-if (States (some r) f scope q db) (matches_nothing scope) (db, answer_empty_scope q)
      (run (some r) f (principal q) app (reduce f scope q) db) (inl refl)
      (elim (run-states r f (principal q) app (reduce f scope q) db) [
        | inl same ↦ inl same
        | inr (red, done) ↦ inr (r, red, refl, done)
      ])

-- No call of a reducer, whatever it reports, touches a membership of another user or one outside
-- its scope.
pub reduction_tenant :
    (r : Option Reducer) (f : Faults) (scope : OrgScope) (app : Option AppCredentials) (q : Request)
    (db : Db) (m : Member)
    → (m.user_id ≢ principal q) ⊎ (permits_organization scope m.org_id ≡ false)
    → In m db.members
    → In m (perform r f scope app q db).0.members
reduction_tenant r f scope app q db m out i = elim (perform-States r f scope app q db) [
  | inl same ↦ subst (λ (x : Db). In m x.members) (sym same) i
  | inr (r', red, e, (middle, a, swept)) ↦
      subst (In m) (sym swept.1) (reduce-stays f scope q db m middle red.organizations out i a)
]

other-derived :
    (u : Str) (os : List Str) (k : Key) → owned_by k.user_id u ≡ false → derived u os k ≡ false
other-derived u os k h = ground arith

-- No call of a reducer, whatever it reports, revokes a key of another user, a service key, or a key
-- whose scopes the principal's authority, as the tables then stand, still grants, where no two keys
-- share an id.
pub reduction_spares :
    (r : Reducer) (f : Faults) (scope : OrgScope) (app : Option AppCredentials) (q : Request)
    (db : Db) (k : Key)
    → IsDistinct db.keys
    → let after = (perform (some r) f scope app q db).0 in
      (owned_by k.user_id (principal q) ≡ false)
        ⊎ IsCovered (λ k. authority after (principal q) k.org_id) r.rw_pairs k
      → In k db.keys
      → In k after.keys
reduction_spares r f scope app q db k distinct spared i =
    elim (perform-States (some r) f scope app q db) [
      | inl same ↦ subst (λ (x : Db). In k x.keys) (sym same) i
      | inr (r', red, e, (middle, a, swept)) ↦
          let keys = reduce-keys f scope q db middle red.organizations a in
          swept.2 (subst IsDistinct (sym keys) distinct) k (subst (In k) (sym keys) i)
            (elim spared [
              | inl other ↦ inl (other-derived (principal q) red.organizations k other)
              | inr covered ↦ inr (
                  subst
                    (λ (x : Reducer).
                      IsCovered
                        (λ k.
                          authority (perform (some r) f scope app q db).0 (principal q) k.org_id)
                        x.rw_pairs k)
                    (some_inj r r' e) covered)
            ])
    ]
