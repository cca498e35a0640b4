-- ===== src/Store/Reduction/Statements.antt =====
-- What the statements of the four reductions leave in place.
use terraform_suite_identity.Common.{
  Str, In, List, filter, map, Bool, false, not, Option, some, if◌then◌else◌, ok, >>=-eq-ok,
  >>-eq-ok, ok_inj, no_error, ◌≡◌, ◌⊎◌, inl, inr, sym, ap, subst, arith, In-filter, In-map,
  count_if, eq_iff, ◌≢◌,
}
use terraform_suite_identity.Store.OrgScope.{OrgScope, permits_organization}
use terraform_suite_identity.Store.Tables.{Member, Db, Faults, database}
use terraform_suite_identity.Store.Reduction.Operations.{
  Request, remove_member, update_member_role_template, update_member_role,
  remove_all_memberships_for_user, principal, reduce, selects, selects_all, delete_member,
  set_template, set_member_template, set_member_role, delete_memberships, require_row,
  lookup_role_template_id,
}

-- The row is not selected by the statements of the request.
abbrev pub Outside : OrgScope → Str → Member → Type 0
Outside scope u m = (m.user_id ≢ u) ⊎ (permits_organization scope m.org_id ≡ false)

selects-Outside :
    (o u : Str) (scope : OrgScope) (m : Member) → Outside scope u m → selects o u scope m ≡ false
unfolding selects
selects-Outside o u scope m (inl other) = ground (arith, eq_iff m.user_id u)
selects-Outside o u scope m (inr denied) = ground arith

selects_all-Outside :
    (u : Str) (scope : OrgScope) (m : Member) → Outside scope u m → selects_all u scope m ≡ false
unfolding selects_all
selects_all-Outside u scope m (inl other) = ground (arith, eq_iff m.user_id u)
selects_all-Outside u scope m (inr denied) = ground arith

kept_row :
    (hit : Member → Bool) (m : Member) (ms : List Member)
    → hit m ≡ false
    → In m ms
    → In m (filter (λ m. not (hit m)) ms)
kept_row hit m ms h i = In-filter (λ (m : Member). not (hit m)) m ms i (ap not h)

unset_row :
    (hit : Member → Bool) (id : Option Str) (m : Member) (ms : List Member)
    → hit m ≡ false
    → In m ms
    → In m (map (set_template hit id) ms)
unset_row hit id m ms h i =
    let there = In-map (set_template hit id) m ms i in
    subst
      (λ b.
        In (record m { role_template_id = if b then id else m.role_template_id })
          (map (set_template hit id) ms))
      h there

set_member_template-stays :
    (f : Faults) (o u : Str) (id : Option Str) (scope : OrgScope) (db : Db) (m : Member)
    (middle : Db) (os : List Str)
    → Outside scope u m
    → In m db.members
    → set_member_template f o u id scope db ≡ ok (middle, os)
    → In m middle.members
unfolding set_member_template
set_member_template-stays f o u id scope db m middle os out i h =
    let h1 = (>>-eq-ok (no_error database f.reduces) _ _ h).1 in
    let h2 = (>>-eq-ok (require_row f (count_if (selects o u scope) db.members)) _ _ h1).1 in
    subst (λ (x : Db × List Str). In m x.0.members) (ok_inj h2)
      (unset_row (selects o u scope) id m db.members (selects-Outside o u scope m out) i)

pub reduce-stays :
    (f : Faults) (scope : OrgScope) (q : Request) (db : Db) (m : Member) (middle : Db)
    (os : List Str)
    → Outside scope (principal q) m
    → In m db.members
    → reduce f scope q db ≡ ok (middle, os)
    → In m middle.members
unfolding reduce delete_member set_member_role delete_memberships
reduce-stays f scope (remove_member o u) db m middle os out i h =
    let h1 = (>>-eq-ok (no_error database f.reduces) _ _ h).1 in
    let h2 = (>>-eq-ok (require_row f (count_if (selects o u scope) db.members)) _ _ h1).1 in
    subst (λ (x : Db × List Str). In m x.0.members) (ok_inj h2)
      (kept_row (selects o u scope) m db.members (selects-Outside o u scope m out) i)
reduce-stays f scope (update_member_role_template o u id) db m middle os out i h =
    set_member_template-stays f o u id scope db m middle os out i h
reduce-stays f scope (update_member_role o u name) db m middle os out i h =
    let (id, a, b) = >>=-eq-ok (lookup_role_template_id f name db) _ _ h in
    set_member_template-stays f o u (some id) scope db m middle os out i b
reduce-stays f scope (remove_all_memberships_for_user u) db m middle os out i h =
    let h1 = (>>-eq-ok (no_error database f.reduces) _ _ h).1 in
    let h2 = (>>-eq-ok (no_error database f.reduced_rows) _ _ h1).1 in
    subst (λ (x : Db × List Str). In m x.0.members) (ok_inj h2)
      (kept_row (selects_all u scope) m db.members (selects_all-Outside u scope m out) i)

set_member_template-keys :
    (f : Faults) (o u : Str) (id : Option Str) (scope : OrgScope) (db middle : Db) (os : List Str)
    → set_member_template f o u id scope db ≡ ok (middle, os)
    → middle.keys ≡ db.keys
unfolding set_member_template
set_member_template-keys f o u id scope db middle os h =
    let h1 = (>>-eq-ok (no_error database f.reduces) _ _ h).1 in
    let h2 = (>>-eq-ok (require_row f (count_if (selects o u scope) db.members)) _ _ h1).1 in
    ap (λ (x : Db × List Str). x.0.keys) (sym (ok_inj h2))

pub reduce-keys :
    (f : Faults) (scope : OrgScope) (q : Request) (db middle : Db) (os : List Str)
    → reduce f scope q db ≡ ok (middle, os)
    → middle.keys ≡ db.keys
unfolding reduce delete_member set_member_template set_member_role delete_memberships
reduce-keys f scope (remove_member o u) db middle os h =
    let h1 = (>>-eq-ok (no_error database f.reduces) _ _ h).1 in
    let h2 = (>>-eq-ok (require_row f (count_if (selects o u scope) db.members)) _ _ h1).1 in
    ap (λ (x : Db × List Str). x.0.keys) (sym (ok_inj h2))
reduce-keys f scope (update_member_role_template o u id) db middle os h =
    set_member_template-keys f o u id scope db middle os h
reduce-keys f scope (update_member_role o u name) db middle os h =
    let (id, a, b) = >>=-eq-ok (lookup_role_template_id f name db) _ _ h in
    set_member_template-keys f o u (some id) scope db middle os b
reduce-keys f scope (remove_all_memberships_for_user u) db middle os h =
    let h1 = (>>-eq-ok (no_error database f.reduces) _ _ h).1 in
    let h2 = (>>-eq-ok (no_error database f.reduced_rows) _ _ h1).1 in
    ap (λ (x : Db × List Str). x.0.keys) (sym (ok_inj h2))
