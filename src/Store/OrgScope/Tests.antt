-- ===== src/Store/OrgScope/Tests.antt =====
-- OrgScope: the text of the predicates, and the theorems at concrete inputs.
use terraform_suite_identity.Common.{
  ℕ, ◌<◌, Str, lit, ◌==◌, contains, decimal, List, [], ◌∷◌, length, get_elem?, is_empty, ◌≡◌, refl,
  Bool, true, false, ◌&&◌, ◌||◌, Option, some,
}
use terraform_suite_identity.Store.OrgScope.{
  org_scope_organizations, org_scope_organizations_and_unowned, zero_scope, permits_organization,
  Arg, text, texts, Expr, const_true, const_false, is_null, eq_any, no_membership, membership_any,
  either, Query, and_scope, query_text, UserMembership, DbResult, found, str_lt,
}
use terraform_suite_identity.Store.OrgScope.Database.{
  Postgres, bound, is_none, any_of, meets, owner, holds_all,
}
use terraform_suite_identity.Store.OrgScope.Predicate.{and_scope_selects}

abbrev column : Str
column = lit "al.organization_id"

abbrev query : Query
query = record { text = lit "SELECT 1 WHERE user_id = $1"; conjuncts = [] }

abbrev args : List Arg
args = text (lit "u1") ∷ []

abbrev orgs : List Str
orgs = lit "b" ∷ [] ∷ lit "a" ∷ lit "b" ∷ []

ids_sorted : (org_scope_organizations orgs).org_ids ≡ lit "a" ∷ lit "b" ∷ []
unfolding org_scope_organizations str_lt contains ◌==◌
ids_sorted = refl

spliced_text :
    query_text (and_scope query (org_scope_organizations_and_unowned orgs) column args).0
    ≡ lit
        "SELECT 1 WHERE user_id = $1 AND (al.organization_id = ANY($2) OR al.organization_id IS NULL)"
unfolding query_text and_scope org_scope_organizations_and_unowned str_lt contains decimal ◌==◌
spliced_text = refl

zero_scope_text :
    query_text (and_scope query zero_scope column args).0
    ≡ lit "SELECT 1 WHERE user_id = $1 AND FALSE"
unfolding query_text and_scope decimal
zero_scope_text = refl

-- A database of rows with one owner, none for NULL, and one list of memberships.
abbrev Owned : Type 0
Owned = Option Str × List Str

abbrev eval : Expr → List Arg → Owned → Bool
eval const_true xs row = true
eval const_false xs row = false
eval (is_null c) xs row = is_none row.0
eval (eq_any c n) xs row = elim (bound xs n) [ some (texts ids) ↦ any_of row.0 ids | _ ↦ false ]
eval (no_membership c) xs row = is_empty row.1
eval (membership_any c n) xs row = elim (bound xs n) [
  | some (texts ids) ↦ meets row.1 ids
  | _ ↦ false
]
eval (either a b) xs row = eval a xs row || eval b xs row

eval-eq_any :
    (c : Str) (n : ℕ) (xs : List Arg) (row : Owned) (ids : List Str)
    → bound xs n ≡ some (texts ids)
    → eval (eq_any c n) xs row ≡ any_of row.0 ids
eval-eq_any c n xs row ids h = rw (h, eval)

eval-membership_any :
    (c : Str) (n : ℕ) (xs : List Arg) (row : Owned) (ids : List Str)
    → bound xs n ≡ some (texts ids)
    → eval (membership_any c n) xs row ≡ meets row.1 ids
eval-membership_any c n xs row ids h = rw (h, eval)

abbrev table : Postgres
table = record {
  Row = Owned;
  value = λ row c. row.0;
  memberships = λ row c. row.1;
  holds = eval;
  holds_true = λ xs row. refl;
  holds_false = λ xs row. refl;
  holds_is_null = λ c xs row. refl;
  holds_eq_any = eval-eq_any;
  holds_no_membership = λ c xs row. refl;
  holds_membership_any = eval-membership_any;
  holds_either = λ a b xs row. refl;
}

abbrev row : Owned
row = (some (lit "a"), lit "a" ∷ [])

and_scope_selects_example :
    let (q', args') = and_scope query (org_scope_organizations orgs) column args in
    (holds_all table q'.conjuncts args' row ≡ (
      holds_all table query.conjuncts args' row
      && permits_organization (org_scope_organizations orgs) (owner (some (lit "a")))))
    × ((i : ℕ) → i < length args → get_elem? args' i ≡ get_elem? args i)
and_scope_selects_example =
    and_scope_selects table query (org_scope_organizations orgs) column args row (λ e. cc)

abbrev memberships : Str → DbResult (List UserMembership)
memberships user =
    found (record { organization_id = lit "a"; role_template_scopes = lit "users:read" ∷ [] } ∷ [])
