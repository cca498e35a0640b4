-- ===== src/PlatformAdmin/History.antt =====
-- Histories of grants and revocations (identity/platformadmin/platformadmin.go), each call one
-- transaction under the lock of the carrier's rows.
use terraform_suite_identity.Common.{
  some_inj, Str, ◌==◌, eq_iff, List, [], ◌∷◌, ◌++◌, In, In-append, In-append_left, filter,
  In-filter, Bool, true, false, not, ◌||◌, Option, none, some, if◌then◌else◌, branch-if, trim_space,
  Result, ok, err, transact, transact-states, transact-ok, ◌≡◌, ◌≢◌, ◌⊎◌, inl, inr, refl, sym, ap,
  subst, arith,
}
use terraform_suite_identity.PlatformAdmin.{
  Grant, CarrierError, not_configured, database, Carrier, Surroundings, AuditIntentWriter,
  Predicate, insert_grant, order_grants, names, holds_grant, grant_body, grant, split_grants,
  revoke_body, revoke, Resolver, require_another_exercisable_admin,
}
use terraform_suite_identity.PlatformAdmin.Floor.{IsExercisable, floor_sound}
use terraform_suite_identity.PlatformAdmin.Audit.{
  Granted, Revoked, others, grant_body-Granted, revoke_body-Revoked,
}

-- A call of the carrier; every revocation is given the floor.
pub data Call : Type 0 where
  grants : Surroundings → Str → Option Str → Option Str → Option AuditIntentWriter → Call
  revokes : Surroundings → Str → Option AuditIntentWriter → Call

abbrev pub act : Resolver → Call → Carrier → Carrier
act r (grants around u by remark w) c = (grant around u by remark w c).0
act r (revokes around u w) c =
    (revoke around u (some (require_another_exercisable_admin (some r))) w c).0

abbrev pub run_calls : Resolver → List Call → Carrier → Carrier
run_calls r [] c = c
run_calls r (call ∷ calls) c = run_calls r calls (act r call c)

-- A grant, or a revocation under any predicate, where there is one.
pub data Change : Type 0 where
  adds : Surroundings → Str → Option Str → Option Str → Option AuditIntentWriter → Change
  removes : Surroundings → Str → Option Predicate → Option AuditIntentWriter → Change

abbrev pub apply : Change → Carrier → Carrier
apply (adds around u by remark w) c = (grant around u by remark w c).0
apply (removes around u keeps w) c = (revoke around u keeps w c).0

abbrev pub writer_of : Change → Option AuditIntentWriter
writer_of (adds around u by remark w) = w
writer_of (removes around u keeps w) = w

grant-states :
    (around : Surroundings) (u : Str) (by remark : Option Str) (w : Option AuditIntentWriter)
    (c : Carrier)
    → let c' = (grant around u by remark w c).0 in
      (c' ≡ c) ⊎ ((g : Grant) × (v : AuditIntentWriter) × (w ≡ some v) × Granted g v c c')
unfolding grant
grant-states around u by remark none c = inl refl
grant-states around u by remark (some v) c =
    branch-if
      (λ (x : Carrier × Result CarrierError Grant).
        (x.0 ≡ c)
        ⊎ ((g : Grant) × (v' : AuditIntentWriter) × (some v ≡ some v') × Granted g v' c x.0))
      (not around.has_db || trim_space u == []) _ _ (inl refl)
      (elim (transact-states database around.begins around.commit (grant_body around row v) c) [
        | inl same ↦ inl same
        | inr (g, done) ↦ inr (row, v, refl, grant_body-Granted around row g v c _ done)
      ])
  where
    row : Grant
    row = record { user_id = u; granted_by = by; granted_at = around.now; note = remark }

revoke-states :
    (around : Surroundings) (u : Str) (keeps : Option Predicate) (w : Option AuditIntentWriter)
    (c : Carrier)
    → let c' = (revoke around u keeps w c).0 in
      (c' ≡ c)
      ⊎ ((p : Predicate) × (v : AuditIntentWriter) × (keeps ≡ some p)
          × (w ≡ some v)
          × Revoked u p v c c')
unfolding revoke
revoke-states around u keeps none c = inl refl
revoke-states around u none (some v) c = inl refl
revoke-states around u (some p) (some v) c =
    branch-if
      (λ (x : Carrier × Result CarrierError Grant).
        (x.0 ≡ c)
        ⊎ ((p' : Predicate) × (v' : AuditIntentWriter) × (some p ≡ some p')
            × (some v ≡ some v')
            × Revoked u p' v' c x.0))
      (not around.has_db || trim_space u == []) _ _ (inl refl)
      (elim (transact-states database around.begins around.commit (revoke_body around u p v) c) [
        | inl same ↦ inl same
        | inr (g, done) ↦ inr (p, v, refl, refl, revoke_body-Revoked around u p v c _ g done)
      ])

In-insert_grant : (g h : Grant) (hs : List Grant) → In h (insert_grant g hs) → (g ≡ h) ⊎ In h hs
unfolding insert_grant
In-insert_grant g h [] i = i
In-insert_grant g h (x ∷ xs) i = ground (arith, In-insert_grant g h xs)

In-order_grants : (h : Grant) (gs : List Grant) → In h (order_grants gs) → In h gs
unfolding order_grants
In-order_grants h [] i = i
In-order_grants h (g ∷ gs) i = elim (In-insert_grant g h (order_grants gs) i) [
  | inl same ↦ inl same
  | inr later ↦ inr (In-order_grants h gs later)
]

split-In :
    (u : Str) (h : Grant) (gs : List Grant) (target : Option Grant) (remaining : List Grant)
    → In h (split_grants u gs target remaining).1
    → In h remaining ⊎ (In h gs × (names u h ≡ false))
unfolding split_grants
split-In u h [] target remaining i = inl i
split-In u h (g ∷ gs) target remaining i = by_test (names u g) refl (split-In u h gs _ _ i)
  where
    by_test :
        (b : Bool)
        → names u g ≡ b
        → In h (if b then remaining else remaining ++ g ∷ []) ⊎ (In h gs × (names u h ≡ false))
        → In h remaining ⊎ (In h (g ∷ gs) × (names u h ≡ false))
    by_test b e (inr (later, t)) = inr (inr later, t)
    by_test true e (inl before) = inl before
    by_test false e (inl before) = elim (In-append h remaining (g ∷ []) before) [
      | inl early ↦ inl early
      | inr (inl same) ↦ inr (inl same, subst (λ x. names u x ≡ false) same e)
      | inr (inr nothing) ↦ elim nothing [ ]
    ]

others-In :
    (u : Str) (c : Carrier) (h : Grant)
    → In h (others u c)
    → In h (filter (λ g. not (names u g)) c.grants)
others-In u c h i = elim (split-In u h (order_grants c.grants) none [] i) [
  | inl nothing ↦ elim nothing [ ]
  | inr (there, t) ↦
      In-filter (λ (g : Grant). not (names u g)) h c.grants (In-order_grants h c.grants there)
        (ap not t)
]

act-IsExercisable :
    (r : Resolver) (call : Call) (c : Carrier)
    → IsExercisable r c.grants
    → IsExercisable r (act r call c).grants
act-IsExercisable r (grants around u by remark w) c (x, i, e) =
    elim (grant-states around u by remark w c) [
      | inl same ↦ subst (λ (d : Carrier). IsExercisable r d.grants) (sym same) (x, i, e)
      | inr (g, v, named, granted) ↦
          subst (IsExercisable r) (sym granted.1) (x, In-append_left x c.grants (g ∷ []) i, e)
    ]
act-IsExercisable r (revokes around u w) c (x, i, e) =
    let floor = require_another_exercisable_admin (some r) in
    elim (revoke-states around u (some floor) w c) [
      | inl same ↦ subst (λ (d : Carrier). IsExercisable r d.grants) (sym same) (x, i, e)
      | inr (p, v, given, named, revoked) ↦
          let passed =
            subst (λ k. k (others u c) ≡ none) (sym (some_inj floor p given)) revoked.0 in
          let (y, j, t) = floor_sound r (others u c) passed in
          subst (IsExercisable r) (sym revoked.1) (y, others-In u c y j, t)
    ]

holds_grant-cut :
    (u : Str) (gs : List Grant) → holds_grant u (filter (λ g. not (names u g)) gs) ≡ false
unfolding holds_grant filter
holds_grant-cut u [] = refl
holds_grant-cut u (g ∷ gs) = ground (arith, holds_grant-cut u gs)

holds_grant-other :
    (u v : Str) (gs : List Grant)
    → v ≢ u
    → holds_grant v (filter (λ g. not (names u g)) gs) ≡ holds_grant v gs
unfolding holds_grant filter
holds_grant-other u v [] other = refl
holds_grant-other u v (g ∷ gs) other =
    ground (arith, holds_grant-other u v gs, eq_iff g.user_id u, eq_iff g.user_id v)

-- No history of grants and of revocations under the floor, whatever fails in it, leaves the platform
-- without an administrator who exists, where there was one at its start.
pub never_without_admin :
    (r : Resolver) (calls : List Call) (c : Carrier)
    → IsExercisable r c.grants
    → IsExercisable r (run_calls r calls c).grants
never_without_admin r [] c h = h
never_without_admin r (call ∷ calls) c h =
    never_without_admin r calls (act r call c) (act-IsExercisable r call c h)

-- A grant or a revocation, whatever its predicate is, either changes nothing, or the intent of its
-- audit record was written, by the writer that the call was given, in the same transaction.
pub changes_audited :
    (change : Change) (c : Carrier)
    → (apply change c ≡ c)
      ⊎ ((v : AuditIntentWriter) × (writer_of change ≡ some v)
          × (v c.intents ≡ ok (apply change c).intents))
changes_audited (adds around u by remark w) c = elim (grant-states around u by remark w c) [
  | inl same ↦ inl same
  | inr (g, v, named, granted) ↦ inr (v, named, granted.2)
]
changes_audited (removes around u keeps w) c = elim (revoke-states around u keeps w c) [
  | inl same ↦ inl same
  | inr (p, v, given, named, revoked) ↦ inr (v, named, revoked.2)
]

-- A revocation that reports success has taken the grant away, and no other one: the user holds none
-- any more, and every other user holds one exactly when that was so before.
revoke_lem :
    (around : Surroundings) (u : Str) (keeps : Option Predicate) (w : Option AuditIntentWriter)
    (c : Carrier) (g : Grant)
    → (revoke around u keeps w c).1 ≡ ok g
    → let c' = (revoke around u keeps w c).0 in
      (holds_grant u c'.grants ≡ false)
      × ((v : Str) → v ≢ u → holds_grant v c'.grants ≡ holds_grant v c.grants)
unfolding revoke
revoke_lem around u keeps none c g h = cc h
revoke_lem around u none (some v) c g h = cc h
revoke_lem around u (some p) (some w) c g h = by_guard (not around.has_db || trim_space u == []) h
  where
    outcome : Bool → Carrier × Result CarrierError Grant
    outcome b =
        if b
        then (c, err not_configured)
        else transact database around.begins around.commit (revoke_body around u p w) c

    by_guard :
        (b : Bool)
        → (outcome b).1 ≡ ok g
        → (holds_grant u (outcome b).0.grants ≡ false)
          × ((v : Str) → v ≢ u → holds_grant v (outcome b).0.grants ≡ holds_grant v c.grants)
    by_guard true k = cc k
    by_guard false k =
        let body =
          transact-ok database around.begins around.commit (revoke_body around u p w) c g k in
        let revoked = revoke_body-Revoked around u p w c _ g body in
        subst
          (λ gs.
            (holds_grant u gs ≡ false)
            × ((v : Str) → v ≢ u → holds_grant v gs ≡ holds_grant v c.grants))
          (sym revoked.1)
          (holds_grant-cut u c.grants, λ v other. holds_grant-other u v c.grants other)
