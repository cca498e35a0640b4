-- ===== src/Store/Reduction/Retained.antt =====
-- The scopes that a user keeps in each organization, against the rows.
use terraform_suite_identity.Common.{
  Str, ◌==◌, contains, eq_iff, List, [], ◌∷◌, true, ◌&&◌, Option, none, some, if◌then◌else◌, ok,
  >>=-eq-ok, ok_inj, ◌≡◌, sym, ap, ◌∙◌, arith,
}
use terraform_suite_identity.Common.Assoc.{Assoc, get, get-put}
use terraform_suite_identity.Store.Tables.{Member, Template, Db, member_scopes}
use terraform_suite_identity.Store.Reduction.{or_nil, retain_row, member_of, retain_rows}

-- The scopes of a user in an organization, read off the rows: those of the role of the membership,
-- and none where there is no membership. The last row counts where several were there.
unfoldable pub held : List Template → Str → Str → List Member → List Str → List Str
held templates user_id org_id [] scopes = scopes
held templates user_id org_id (m ∷ members) scopes = held templates user_id org_id members (
    if m.user_id == user_id && m.org_id == org_id
    then or_nil (member_scopes templates m)
    else scopes)

unfoldable pub authority : Db → Str → Str → List Str
unfolding held
authority db user_id org_id = held db.templates user_id org_id db.members []

-- One row of the retained map, at an organization that is asked for.
retain_row_lem :
    (ts : List Template) (u o : Str) (os : List Str) (m : Member) (acc next : Assoc (List Str))
    → contains os o ≡ true
    → (if member_of u os m then retain_row m.org_id (member_scopes ts m) acc else ok acc) ≡ ok next
    → or_nil (get next o) ≡ (
        if m.user_id == u && m.org_id == o then or_nil (member_scopes ts m) else or_nil (get acc o))
unfolding retain_row
retain_row_lem ts u o os m acc next asked h = row (member_scopes ts m) h
  where
    row :
        (s : Option (List Str))
        → (if member_of u os m then retain_row m.org_id s acc else ok acc) ≡ ok next
        → or_nil (get next o)
          ≡ (if m.user_id == u && m.org_id == o then or_nil s else or_nil (get acc o))
    row none k = ground (arith, eq_iff m.org_id o)
    row (some scopes) k = ground (arith, get-put acc m.org_id o scopes, eq_iff m.org_id o)

pub retain_rows_lem :
    (ts : List Template) (u o : Str) (os : List Str) (ms : List Member)
    (acc result : Assoc (List Str))
    → contains os o ≡ true
    → retain_rows ts u os ms acc ≡ ok result
    → or_nil (get result o) ≡ held ts u o ms (or_nil (get acc o))
unfolding retain_rows held
retain_rows_lem ts u o os [] acc result asked h =
    ap (λ (x : Assoc (List Str)). or_nil (get x o)) (sym (ok_inj h))
retain_rows_lem ts u o os (m ∷ ms) acc result asked h =
    let (next, one, more) = >>=-eq-ok _ _ result h in
    retain_rows_lem ts u o os ms next result asked more
    ∙ ap (held ts u o ms) (retain_row_lem ts u o os m acc next asked one)
