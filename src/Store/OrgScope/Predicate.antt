-- ===== src/Store/OrgScope/Predicate.antt =====
-- The SQL predicate of a scope, against `PermitsOrganization`.
use terraform_suite_identity.Common.{
  ℕ, ◌+◌, ◌<◌, Str, ◌==◌, eq_iff, contains, List, [], ◌∷◌, ◌++◌, length, get_elem?,
  get_elem?-append_left, ◌≡◌, ◌≢◌, refl, ap, ◌∙◌, Bool, true, false, ◌&&◌, ◌||◌, Option, none, some,
  arith, if◌then◌else◌,
}
use terraform_suite_identity.Store.OrgScope.{
  OrgScope, Arg, texts, sql, Query, and_scope, permits_organization,
}
use terraform_suite_identity.Store.OrgScope.Database.{
  Postgres, is_none, any_of, owner, bound_last, holds_all, holds_all-append,
}

null_owned :
    (o : Option Str)
    → o ≢ some []
    → is_none o ≡ (if owner o == [] then true else contains [] (owner o))
unfolding ◌==◌ contains
null_owned none h = refl
null_owned (some v) h = ground (arith, eq_iff v [])

nothing_owned : (o : Option Str) → false ≡ (if owner o == [] then false else contains [] (owner o))
unfolding contains
nothing_owned o = ground arith

any_of_lem :
    (o : Option Str) (ids : List Str)
    → o ≢ some []
    → any_of o ids ≡ (if owner o == [] then false else contains ids (owner o))
unfolding ◌==◌
any_of_lem none ids h = refl
any_of_lem (some v) ids h = ground (arith, eq_iff v [])

unowned_lem :
    (o : Option Str) (ids : List Str)
    → o ≢ some []
    → (any_of o ids || is_none o) ≡ (if owner o == [] then true else contains ids (owner o))
unfolding ◌==◌
unowned_lem none ids h = refl
unowned_lem (some v) ids h = ground (arith, eq_iff v [])

module _ (pg : Postgres) where
  -- The clause at the placeholder that follows the arguments so far.
  clause_cases :
      (ids : List Str) (all unowned : Bool) (c : Str) (args : List Arg) (row : pg.Row)
      → pg.value row c ≢ some []
      → let s : OrgScope = record { org_ids = ids; all = all; unowned = unowned } in
        let (e, more) = sql s c (length args + 1) in
        pg.holds e (args ++ more) row ≡ permits_organization s (owner (pg.value row c))
  unfolding sql permits_organization
  clause_cases ids true unowned c args row owned = pg.holds_true _ row
  clause_cases [] false true c args row owned =
      pg.holds_is_null c _ row ∙ null_owned (pg.value row c) owned
  clause_cases [] false false c args row owned =
      pg.holds_false _ row ∙ nothing_owned (pg.value row c)
  clause_cases (id ∷ ids) false true c args row owned =
      let ids' = id ∷ ids in
      let at = bound_last args (texts ids') in
      let any = pg.holds_eq_any c (length args + 1) (args ++ texts ids' ∷ []) row ids' at in
      rw pg.holds_either (
        rw (any, pg.holds_is_null c (args ++ texts ids' ∷ []) row)
          (unowned_lem (pg.value row c) ids' owned))
  clause_cases (id ∷ ids) false false c args row owned =
      let ids' = id ∷ ids in
      let at = bound_last args (texts ids') in
      pg.holds_eq_any c (length args + 1) (args ++ texts ids' ∷ []) row ids' at
      ∙ any_of_lem (pg.value row c) ids' owned

  -- The one splice site of a tenant predicate: the spliced clause, read with the arguments that
  -- `andScope` returns, selects exactly the rows that `PermitsOrganization` admits, and every
  -- placeholder in use before keeps its argument. A column holds no empty owner.
  pub and_scope_selects :
      (q : Query) (s : OrgScope) (c : Str) (args : List Arg) (row : pg.Row)
      → pg.value row c ≢ some []
      → let (q', args') = and_scope q s c args in
        (holds_all pg q'.conjuncts args' row
          ≡ (holds_all pg q.conjuncts args' row && permits_organization s (owner (pg.value row c))))
        × ((i : ℕ) → i < length args → get_elem? args' i ≡ get_elem? args i)
  unfolding and_scope
  and_scope_selects q s c args row owned =
      let (e, more) = sql s c (length args + 1) in
      (
        holds_all-append pg q.conjuncts e (args ++ more) row
            ∙ ap (◌&&◌ (holds_all pg q.conjuncts (args ++ more) row))
                (clause_cases s.org_ids s.all s.unowned c args row owned),
        λ i h. get_elem?-append_left args more i h,
      )
