-- ===== src/Store/Reduction/Operations.antt =====
-- The four reductions of identity/store/authority_reduction.go, and the lookup of a role by its name
-- (identity/store/organization_repository.go).
use terraform_suite_identity.Common.{
  ℕ, Str, ◌==◌, List, [], ◌∷◌, map, filter, count_if, nat_eq, Bool, not, ◌&&◌, Option, none, some,
  if◌then◌else◌, Result, ok, err, ◌>>=◌, ◌>>◌, no_error, require,
}
use terraform_suite_identity.Store.OrgScope.{OrgScope, matches_nothing, permits_organization}
use terraform_suite_identity.Store.Tables.{
  Member, Template, Db, StoreError, not_found, no_role, database, Faults,
}
use terraform_suite_identity.Store.Reduction.{Reduced, AppCredentials, Reducer, run}

-- `organization_id = $1 AND user_id = $2`, with the tenant predicate appended.
unfoldable pub selects : Str → Str → OrgScope → Member → Bool
selects org_id user_id scope m =
    m.org_id == org_id && m.user_id == user_id && permits_organization scope m.org_id

-- `user_id = $1`, with the tenant predicate appended.
unfoldable pub selects_all : Str → OrgScope → Member → Bool
selects_all user_id scope m = m.user_id == user_id && permits_organization scope m.org_id

-- `requireRow` (identity/store/errors.go).
unfoldable pub require_row : Faults → ℕ → Result StoreError (Unit {0})
require_row f n = do no_error database f.reduced_rows; require (not (nat_eq n 0)) not_found

unfoldable pub delete_member :
    Faults → Str → Str → OrgScope → Db → Result StoreError (Db × List Str)
unfolding require_row selects
delete_member f org_id user_id scope db = do
  no_error database f.reduces
  require_row f (count_if (selects org_id user_id scope) db.members)
  ok (
    record db { members = filter (λ m. not (selects org_id user_id scope m)) db.members },
    org_id ∷ [],
  )

abbrev pub set_template : (Member → Bool) → Option Str → Member → Member
set_template hit id m = record m { role_template_id = if hit m then id else m.role_template_id }

unfoldable pub set_member_template :
    Faults → Str → Str → Option Str → OrgScope → Db → Result StoreError (Db × List Str)
unfolding require_row selects
set_member_template f org_id user_id id scope db = do
  no_error database f.reduces
  require_row f (count_if (selects org_id user_id scope) db.members)
  ok (
    record db { members = map (set_template (selects org_id user_id scope) id) db.members },
    org_id ∷ [],
  )

-- `SELECT id FROM role_templates WHERE name = $1`
unfoldable pub role_id : List Template → Str → Option Str
role_id [] name = none
role_id (t ∷ ts) name = if t.name == name then some t.id else role_id ts name

unfoldable pub lookup_role_template_id : Faults → Str → Db → Result StoreError Str
unfolding role_id
lookup_role_template_id f name db = do
  no_error database f.lookup
  elim (role_id db.templates name) [ none ↦ err no_role | some id ↦ ok id ]

unfoldable pub set_member_role :
    Faults → Str → Str → Str → OrgScope → Db → Result StoreError (Db × List Str)
unfolding set_member_template lookup_role_template_id
set_member_role f org_id user_id name scope db = do
  id ← lookup_role_template_id f name db
  set_member_template f org_id user_id (some id) scope db

-- `DELETE … RETURNING organization_id`
unfoldable pub delete_memberships : Faults → Str → OrgScope → Db → Result StoreError (Db × List Str)
unfolding selects_all
delete_memberships f user_id scope db = do
  no_error database f.reduces
  no_error database f.reduced_rows
  ok (
    record db { members = filter (λ m. not (selects_all user_id scope m)) db.members },
    map (λ (m : Member). m.org_id) (filter (selects_all user_id scope) db.members),
  )

-- The calls of a reducer, with their arguments.
pub data Request : Type 0 where
  remove_member : Str → Str → Request
  update_member_role_template : Str → Str → Option Str → Request
  update_member_role : Str → Str → Str → Request
  remove_all_memberships_for_user : Str → Request

abbrev pub principal : Request → Str
principal (remove_member org_id user_id) = user_id
principal (update_member_role_template org_id user_id id) = user_id
principal (update_member_role org_id user_id name) = user_id
principal (remove_all_memberships_for_user user_id) = user_id

-- The reduction that a call runs inside the transaction.
unfoldable pub reduce : Faults → OrgScope → Request → Db → Result StoreError (Db × List Str)
unfolding delete_member set_member_template set_member_role delete_memberships
reduce f scope (remove_member org_id user_id) = delete_member f org_id user_id scope
reduce f scope (update_member_role_template org_id user_id id) =
    set_member_template f org_id user_id id scope
reduce f scope (update_member_role org_id user_id name) =
    set_member_role f org_id user_id name scope
reduce f scope (remove_all_memberships_for_user user_id) = delete_memberships f user_id scope

-- What a call answers where its scope matches nothing: the bulk removal has then nothing to do.
unfoldable pub answer_empty_scope : Request → Result StoreError Reduced
answer_empty_scope (remove_member org_id user_id) = err not_found
answer_empty_scope (update_member_role_template org_id user_id id) = err not_found
answer_empty_scope (update_member_role org_id user_id name) = err not_found
answer_empty_scope (remove_all_memberships_for_user user_id) =
    ok (record { user_id = user_id; organizations = []; keys_revoked = 0; keys_retained = 0 })

unfoldable pub perform :
    Option Reducer
    → Faults
    → OrgScope
    → Option AppCredentials
    → Request
    → Db
    → Db × Result StoreError Reduced
unfolding answer_empty_scope reduce
perform r f scope app q db =
    if matches_nothing scope
    then (db, answer_empty_scope q)
    else run r f (principal q) app (reduce f scope q) db
