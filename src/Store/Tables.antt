-- ===== src/Store/Tables.antt =====
-- The tables that identity/store's reductions read and write (identity/migrations), with the
-- statements' effect on them. A JSON column is what it decodes to, `none` where it does not decode.
use terraform_suite_identity.Common.{
  ℕ, Str, ◌==◌, contains, List, [], ◌∷◌, filter, Bool, false, not, Option, none, some,
  if◌then◌else◌, CommitOutcome,
}

-- A row of organization_members.
pub record Member : Type 0 where
  pub org_id : Str
  pub user_id : Str
  pub role_template_id : Option Str

-- A row of role_templates.
pub record Template : Type 0 where
  pub id : Str
  pub name : Str
  pub scopes : Option (List Str)

-- A row of api_keys. A key with no user is an organization's service key.
pub record Key : Type 0 where
  pub id : Str
  pub org_id : Str
  pub user_id : Option Str
  pub scopes : Option (List Str)

-- The tables, and the application's own credentials on the same connection.
pub record Db : Type 0 where
  pub members : List Member
  pub templates : List Template
  pub keys : List Key
  pub own : List Str

pub data StoreError : Type 0 where
  no_database no_credential_decision not_found no_role undecodable miscounted : StoreError
  empty_template bad_batch_size : StoreError
  database application : ℕ → StoreError

-- The statements that can fail, each with the number of its error, and the commit.
pub record Faults : Type 0 where
  pub begins : Option ℕ
  pub lookup : Option ℕ
  pub reduces : Option ℕ
  pub reduced_rows : Option ℕ
  pub reads_authority : Option ℕ
  pub reads_keys : Option ℕ
  pub deletes_keys : Option ℕ
  pub deleted_rows : Option ℕ
  pub commit : CommitOutcome

-- `user_id = $1`, which is not true of NULL.
abbrev pub owned_by : Option Str → Str → Bool
owned_by none user_id = false
owned_by (some u) user_id = u == user_id

-- The template that `rt.id = om.role_template_id` joins.
unfoldable pub template_scopes : List Template → Str → Option (List Str)
template_scopes [] id = some []
template_scopes (t ∷ ts) id = if t.id == id then t.scopes else template_scopes ts id

-- `COALESCE(rt.scopes, '[]'::jsonb)` of the LEFT JOIN.
unfoldable pub member_scopes : List Template → Member → Option (List Str)
unfolding template_scopes
member_scopes ts m = elim m.role_template_id [ none ↦ some [] | some id ↦ template_scopes ts id ]

-- `DELETE FROM api_keys WHERE id = ANY($1)`
unfoldable pub without_keys : List Str → List Key → List Key
without_keys ids keys = filter (λ k. not (contains ids k.id)) keys
