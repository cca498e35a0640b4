-- ===== src/Store/OrgScope/Database.antt =====
-- What the scope's predicates rely on of the database, as an interface.
use terraform_suite_identity.Common.{
  ℕ, ◌+◌, ◌-◌, Str, contains, List, [], ◌∷◌, ◌++◌, length, get_elem?, get_elem?-append_length,
  is_empty, ◌≡◌, refl, Bool, true, false, ◌&&◌, ◌||◌, Option, none, some, arith, if◌then◌else◌,
}
use terraform_suite_identity.Store.OrgScope.{
  Arg, texts, Expr, const_true, const_false, is_null, eq_any, no_membership, membership_any, either,
}

-- The argument of the placeholder `$n`.
abbrev pub bound : List Arg → ℕ → Option Arg
bound args n = get_elem? args (n - 1)

abbrev pub is_none : Option Str → Bool
is_none none = true
is_none (some v) = false

-- `v = ANY(ids)`, which is not true of NULL.
abbrev pub any_of : Option Str → List Str → Bool
any_of none ids = false
any_of (some v) ids = contains ids v

-- The organizations of a user that are among the ids.
pub meets : List Str → List Str → Bool
meets [] ids = false
meets (o ∷ orgs) ids = if contains ids o then true else meets orgs ids

pub meets-nil : (orgs : List Str) → meets orgs [] ≡ false
unfolding meets contains
meets-nil [] = refl
meets-nil (o ∷ orgs) = meets-nil orgs

-- What the predicates rely on of PostgreSQL: how it evaluates each form in a WHERE clause, where
-- NULL counts as not selected.
pub record Postgres : Type 1 where
  pub Row : Type 0
  pub value : Row → Str → Option Str
  -- The organizations of the user that a column names, in organization_members.
  pub memberships : Row → Str → List Str
  pub holds : Expr → List Arg → Row → Bool
  pub holds_true : (args : List Arg) (row : Row) → holds const_true args row ≡ true
  pub holds_false : (args : List Arg) (row : Row) → holds const_false args row ≡ false
  pub holds_is_null :
      (c : Str) (args : List Arg) (row : Row) → holds (is_null c) args row ≡ is_none (value row c)
  pub holds_eq_any :
      (c : Str) (n : ℕ) (args : List Arg) (row : Row) (ids : List Str)
      → bound args n ≡ some (texts ids)
      → holds (eq_any c n) args row ≡ any_of (value row c) ids
  pub holds_no_membership :
      (c : Str) (args : List Arg) (row : Row)
      → holds (no_membership c) args row ≡ is_empty (memberships row c)
  pub holds_membership_any :
      (c : Str) (n : ℕ) (args : List Arg) (row : Row) (ids : List Str)
      → bound args n ≡ some (texts ids)
      → holds (membership_any c n) args row ≡ meets (memberships row c) ids
  pub holds_either :
      (a b : Expr) (args : List Arg) (row : Row)
      → holds (either a b) args row ≡ (holds a args row || holds b args row)

-- The owner as `PermitsOrganization` takes it: empty for NULL.
abbrev pub owner : Option Str → Str
owner none = []
owner (some v) = v

pub bound_last : (args : List Arg) (a : Arg) → bound (args ++ a ∷ []) (length args + 1) ≡ some a
bound_last args a =
    let n : length args + 1 - 1 ≡ length args = omega arith in
    rw n (get_elem?-append_length args a [])

module _ (pg : Postgres) where
  pub holds_all : List Expr → List Arg → pg.Row → Bool
  holds_all [] args row = true
  holds_all (e ∷ es) args row = pg.holds e args row && holds_all es args row

  pub holds_all-append :
      (es : List Expr) (e : Expr) (args : List Arg) (row : pg.Row)
      → holds_all (es ++ e ∷ []) args row ≡ (holds_all es args row && pg.holds e args row)
  unfolding holds_all
  holds_all-append [] e args row = ground arith
  holds_all-append (x ∷ es) e args row = ground (arith, holds_all-append es e args row)
