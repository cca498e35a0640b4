-- ===== src/Store/OrgScope/Users.antt =====
-- The predicate on the users table, which goes through organization_members.
use terraform_suite_identity.Common.{
  ℕ, ◌+◌, ◌<◌, Str, List, [], ◌∷◌, ◌++◌, length, get_elem?, get_elem?-append_left, is_empty, ◌≡◌,
  ap, ◌∙◌, Bool, true, false, ◌&&◌, ◌||◌, arith,
}
use terraform_suite_identity.Store.OrgScope.{
  OrgScope, Arg, texts, membership_sql, Query, and_membership_scope,
}
use terraform_suite_identity.Store.OrgScope.Database.{
  Postgres, meets, meets-nil, bound_last, holds_all, holds_all-append,
}

or_comm : (a b : Bool) → (a || b) ≡ (b || a)
or_comm a b = ground arith

module _ (pg : Postgres) where
  user_cases :
      (ids : List Str) (all unowned : Bool) (c : Str) (args : List Arg) (row : pg.Row)
      → let s : OrgScope = record { org_ids = ids; all = all; unowned = unowned } in
        let (e, more) = membership_sql s c (length args + 1) in
        pg.holds e (args ++ more) row
        ≡ (all || (unowned && is_empty (pg.memberships row c)) || meets (pg.memberships row c) ids)
  unfolding membership_sql
  user_cases ids true unowned c args row = pg.holds_true _ row
  user_cases [] false true c args row =
      pg.holds_no_membership c _ row ∙ ground (arith, meets-nil (pg.memberships row c))
  user_cases [] false false c args row =
      pg.holds_false _ row ∙ ground (arith, meets-nil (pg.memberships row c))
  user_cases (id ∷ ids) false true c args row =
      let ids' = id ∷ ids in
      let args' = args ++ texts ids' ∷ [] in
      let any =
        pg.holds_membership_any c (length args + 1) args' row ids' (bound_last args (texts ids')) in
      rw pg.holds_either (
        rw (any, pg.holds_no_membership c args' row)
          (or_comm (meets (pg.memberships row c) ids') (is_empty (pg.memberships row c))))
  user_cases (id ∷ ids) false false c args row =
      let ids' = id ∷ ids in
      pg.holds_membership_any c (length args + 1) (args ++ texts ids' ∷ []) row ids'
        (bound_last args (texts ids'))

  -- The users predicate, spliced by `andMembershipScope`, selects exactly: every user for the
  -- platform-wide scope, the users with a membership in an organization of the scope, and for a
  -- scope with unowned rows the users without any membership. Placeholders in use keep their
  -- arguments.
  and_membership_scope_selects :
      (q : Query) (s : OrgScope) (c : Str) (args : List Arg) (row : pg.Row)
      → let (q', args') = and_membership_scope q s c args in
        let orgs = pg.memberships row c in
        (holds_all pg q'.conjuncts args' row ≡ (
          holds_all pg q.conjuncts args' row
          && (s.all || (s.unowned && is_empty orgs) || meets orgs s.org_ids)))
        × ((i : ℕ) → i < length args → get_elem? args' i ≡ get_elem? args i)
  unfolding and_membership_scope
  and_membership_scope_selects q s c args row =
      let (e, more) = membership_sql s c (length args + 1) in
      (
        holds_all-append pg q.conjuncts e (args ++ more) row
            ∙ ap (◌&&◌ (holds_all pg q.conjuncts (args ++ more) row))
                (user_cases s.org_ids s.all s.unowned c args row),
        λ i h. get_elem?-append_left args more i h,
      )
