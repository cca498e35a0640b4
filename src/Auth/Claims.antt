-- ===== src/Auth/Claims.antt =====
-- The claims payload of identity/auth/jwt.go: the type, `TokenID` and `syncTokenID`.
use terraform_suite_identity.Common.{
  ℕ, Str, ◌==◌, eq_iff, List, [], ◌≡◌, not, Option, none, some, arith, if◌then◌else◌,
}

-- `jwt.RegisteredClaims`, its fields; the token manager sets no `nbf`. A time that is absent is a nil pointer.
pub record RegisteredClaims : Type 0 where
  pub issuer : Str
  pub subject : Str
  pub audience : List Str
  pub expires_at : Option ℕ
  pub not_before : Option ℕ
  pub issued_at : Option ℕ
  pub id : Str

pub record Claims : Type 0 where
  pub user_id : Str
  pub email : Str
  pub org_id : Str
  pub scopes : List Str
  pub jti : Str
  pub registered : RegisteredClaims

-- `none` is the nil pointer.
unfoldable pub token_id : Option Claims → Str
token_id none = []
token_id (some c) = if not (c.jti == []) then c.jti else c.registered.id

-- The pointer's claims after the call.
unfoldable pub sync_token_id : Claims → Claims
unfolding token_id
sync_token_id c =
    let id = token_id (some c) in
    if not (id == [])
    then record c { jti = id; registered = record (c.registered) { id = id } }
    else c

-- After `syncTokenID` both fields that carry the identifier agree with `TokenID`, whose value is
-- what it was before.
sync_token_id_agrees :
    (c : Claims)
    → ((sync_token_id c).jti ≡ token_id (some c))
      × ((sync_token_id c).registered.id ≡ token_id (some c))
      × (token_id (some (sync_token_id c)) ≡ token_id (some c))
unfolding sync_token_id
sync_token_id_agrees c = ground (arith, eq_iff c.jti [], eq_iff c.registered.id [])
