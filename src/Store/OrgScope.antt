-- ===== src/Store/OrgScope.antt =====
-- identity/store/org_scope.go: the tenant constraint `OrgScope`, its SQL predicate and the
-- resolver `OrgScopeForUser`. A predicate is built as an expression, and `render` writes the text.
pub mod Order
pub mod Canonical
pub mod Permits
pub mod Database
pub mod Predicate
pub mod Users
pub mod Resolver
mod Tests
use terraform_suite_identity.Common.{
  ℕ, ◌+◌, ◌<◌, Str, lit, ◌==◌, contains, decimal, nat_eq, ltb, List, [], ◌∷◌, ◌++◌, length,
  is_empty, Bool, true, false, not, ◌&&◌, ◌||◌, Option, none, some, if◌then◌else◌,
}
use terraform_suite_identity.Auth.Scopes.{ReadWritePairs, has_scope}

pub record OrgScope : Type 0 where
  pub org_ids : List Str
  pub all : Bool
  pub unowned : Bool

-- The zero value.
abbrev pub zero_scope : OrgScope
zero_scope = record { org_ids = []; all = false; unowned = false }

-- The order of `sort.Strings`.
unfoldable pub str_lt : Str → Str → Bool
str_lt s [] = false
str_lt [] (b ∷ t) = true
str_lt (a ∷ s) (b ∷ t) = if ltb a b then true else nat_eq a b && str_lt s t

pub insert : Str → List Str → List Str
insert x [] = x ∷ []
insert x (y ∷ ys) = if str_lt y x then y ∷ insert x ys else x ∷ y ∷ ys

pub sort : List Str → List Str
unfolding insert
sort [] = []
sort (x ∷ xs) = insert x (sort xs)

-- The loop of `OrgScopeOrganizations`: empty ids and those seen before are dropped.
pub clean : List Str → List Str → List Str
clean seen [] = []
clean seen (id ∷ ids) =
    let skip = clean seen ids in
    let keep = id ∷ clean (id ∷ seen) ids in
    if id == [] then skip else if contains seen id then skip else keep

unfoldable pub org_scope_organizations : List Str → OrgScope
unfolding clean sort
org_scope_organizations org_ids = record {
  org_ids = sort (clean [] org_ids);
  all = false;
  unowned = false;
}

unfoldable pub with_unowned : OrgScope → OrgScope
with_unowned s = record s { unowned = true }

unfoldable pub org_scope_organizations_and_unowned : List Str → OrgScope
unfolding org_scope_organizations with_unowned
org_scope_organizations_and_unowned org_ids = with_unowned (org_scope_organizations org_ids)

unfoldable pub org_scope_all_organizations : OrgScope
org_scope_all_organizations = record { org_ids = []; all = true; unowned = false }

pub is_all_organizations : OrgScope → Bool
is_all_organizations s = s.all

unfoldable pub includes_unowned : OrgScope → Bool
includes_unowned s = s.all || s.unowned

unfoldable pub matches_nothing : OrgScope → Bool
matches_nothing s = not s.all && not s.unowned && is_empty s.org_ids

-- The copy is another slice with the same elements.
unfoldable pub organization_ids : OrgScope → List Str
organization_ids s = s.org_ids

unfoldable pub permits_organization : OrgScope → Str → Bool
permits_organization s org_id =
    if s.all then true else if org_id == [] then s.unowned else contains s.org_ids org_id

-- What a statement binds: one value or an array of strings.
pub data Arg : Type 0 where
  text : Str → Arg
  texts : List Str → Arg
  int : ℕ → Arg

-- The Boolean expressions that the scope's predicates are made of. A placeholder is its number.
pub data Expr : Type 0 where
  const_true const_false : Expr
  is_null : Str → Expr
  eq_any : Str → ℕ → Expr
  no_membership : Str → Expr
  membership_any : Str → ℕ → Expr
  either : Expr → Expr → Expr

pub render : Expr → Str
render const_true = lit "TRUE"
render const_false = lit "FALSE"
render (is_null column) = column ++ lit " IS NULL"
render (eq_any column n) = column ++ (lit " = ANY($" ++ (decimal n ++ lit ")"))
render (no_membership column) =
    lit "NOT EXISTS (SELECT 1 FROM organization_members osm WHERE osm.user_id = "
    ++ (column ++ lit ")")
render (membership_any column n) =
    lit "EXISTS (SELECT 1 FROM organization_members osm WHERE osm.user_id = "
    ++ (column ++ (lit " AND osm.organization_id = ANY($" ++ (decimal n ++ lit "))")))
render (either a b) = lit "(" ++ (render a ++ (lit " OR " ++ (render b ++ lit ")")))

unfoldable pub sql : OrgScope → Str → ℕ → Expr × List Arg
sql s column param_index =
    if s.all
    then (const_true, [])
    else if is_empty s.org_ids
    then (if s.unowned then (is_null column, []) else (const_false, []))
    else if s.unowned
    then (either (eq_any column param_index) (is_null column), texts s.org_ids ∷ [])
    else (eq_any column param_index, texts s.org_ids ∷ [])

unfoldable pub membership_sql : OrgScope → Str → ℕ → Expr × List Arg
membership_sql s user_column param_index =
    if s.all
    then (const_true, [])
    else if is_empty s.org_ids
    then (if s.unowned then (no_membership user_column, []) else (const_false, []))
    else if s.unowned
    then (
      either (membership_any user_column param_index) (no_membership user_column),
      texts s.org_ids ∷ [],
    )
    else (membership_any user_column param_index, texts s.org_ids ∷ [])

-- A statement's text so far, with the expressions that " AND " has joined to it.
pub record Query : Type 0 where
  pub text : Str
  pub conjuncts : List Expr

unfoldable pub and_scope : Query → OrgScope → Str → List Arg → Query × List Arg
unfolding sql
and_scope query s column args =
    let (clause, scope_args) = sql s column (length args + 1) in
    (record query { conjuncts = query.conjuncts ++ clause ∷ [] }, args ++ scope_args)

unfoldable pub and_membership_scope : Query → OrgScope → Str → List Arg → Query × List Arg
unfolding membership_sql
and_membership_scope query s user_column args =
    let (clause, scope_args) = membership_sql s user_column (length args + 1) in
    (record query { conjuncts = query.conjuncts ++ clause ∷ [] }, args ++ scope_args)

-- The text that is sent: every conjunct after " AND ".
pub render_conjuncts : List Expr → Str
unfolding render
render_conjuncts [] = []
render_conjuncts (e ∷ es) = lit " AND " ++ (render e ++ render_conjuncts es)

unfoldable pub query_text : Query → Str
unfolding render_conjuncts
query_text q = q.text ++ render_conjuncts q.conjuncts

-- models.UserMembership, the fields that the resolver reads.
pub record UserMembership : Type 0 where
  pub organization_id : Str
  pub role_template_scopes : List Str

-- A failed query, by the number of its error.
pub data DbResult {ℓ} (A : Type ℓ) : Type ℓ where
  found : A → DbResult A
  failed : ℕ → DbResult A

pub qualifying : List UserMembership → Str → ReadWritePairs → List Str
qualifying [] required rw_pairs = []
qualifying (m ∷ ms) required rw_pairs =
    let rest = qualifying ms required rw_pairs in
    if has_scope m.role_template_scopes required rw_pairs then m.organization_id ∷ rest else rest

pub resolved : DbResult (List UserMembership) → Str → ReadWritePairs → OrgScope × Option ℕ
unfolding qualifying
resolved (failed e) required rw_pairs = (zero_scope, some e)
resolved (found ms) required rw_pairs =
    (org_scope_organizations (qualifying ms required rw_pairs), none)

-- The memberships come from the database: `GetUserMemberships` is an argument.
unfoldable pub org_scope_for_user :
    (Str → DbResult (List UserMembership)) → Str → Str → ReadWritePairs → OrgScope × Option ℕ
unfolding resolved
org_scope_for_user get_user_memberships user_id required rw_pairs =
    if user_id == []
    then (zero_scope, none)
    else resolved (get_user_memberships user_id) required rw_pairs
