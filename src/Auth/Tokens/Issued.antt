-- ===== src/Auth/Tokens/Issued.antt =====
-- The tokens that `Generate` and `GenerateForOrg` mint: who accepts them, through a rotation of the
-- secret, and what they authorize.
use terraform_suite_identity.Common.{
  All, ℕ, ℤ, Str, ◌==◌, eq_iff, eq_refl, contains, List, [], is_empty, ◌≡◌, ◌≢◌, inl, inr, refl,
  sym, ap, subst, ◌∙◌, true, false, not, ◌&&◌, Option, none, some, ltb, ok, Bool-cases, arith,
  if◌then◌else◌,
}
use terraform_suite_identity.Auth.Claims.{Claims, sync_token_id, token_id}
use terraform_suite_identity.Auth.Scopes.{
  ReadWritePairs, has_scope, has_scope_in_org, org_bound, claims_scopes,
}
use terraform_suite_identity.Auth.Tokens.{
  hs256, Jwt, TokenManager, rotate_secret, clear_previous_secret, issuer_allowed, current_secret,
  audience_claim, add_duration, expiry_of, generated_claims, signed, generate_token, validate,
}
use terraform_suite_identity.Auth.Tokens.Validation.{
  texts, IsWritable, addressed, read_back, JwtLaws, Holds, validate_iff,
}

signed-ok : (o : Option Str) (token : Str) → signed o ≡ ok token → o ≡ some token
unfolding signed
signed-ok none token h = cc h
signed-ok (some t) token h = cc h

is_empty-named : (s : Str) → is_empty s ≡ false → s ≢ []
is_empty-named s h e = cc (h, e)

sync-binding :
    (c : Claims) → ((sync_token_id c).org_id ≡ c.org_id) × ((sync_token_id c).scopes ≡ c.scopes)
unfolding sync_token_id
sync-binding c = (ground arith, ground arith)

gate_lem :
    (org org' asked required : Str) (scopes scopes' : List Str) (rw_pairs : ReadWritePairs)
    → org ≡ org'
    → scopes ≡ scopes'
    → (if not (not (asked == []) && not (org == []) && org == asked)
        then false
        else has_scope scopes required rw_pairs)
      ≡ (if org' == []
          then false
          else if asked == org'
          then has_scope scopes' required rw_pairs
          else false)
gate_lem org org' asked required scopes scopes' rw_pairs o s =
    rw (o, s)
      (ground (arith, eq_iff org' [], eq_iff asked [], eq_iff org' asked, eq_iff asked org'))

pub addressed_self : (aud : Option Str) → addressed aud (audience_claim aud) ≡ true
unfolding audience_claim contains
addressed_self none = refl
addressed_self (some a) = ground (arith, eq_refl a)

module _ (jwt : Jwt) (laws : JwtLaws jwt) where
  -- What a call that returned a token did.
  record Minted (m : TokenManager) (c : Claims) (token : Str) : Type 0 where
    secret : current_secret m ≢ []
    method : laws.algorithm token ≡ hs256
    authentic : laws.verifies hs256 (current_secret m) token ≡ true
    body : laws.decode token ≡ some (read_back c)

  generated_claims-IsWritable :
      (m : TokenManager) (jti : Str) (expires_from issued : ℕ) (user_id email org_id : Str)
      (scopes : List Str) (expires_in : ℤ)
      → let c =
          generated_claims jwt m jti expires_from issued user_id email org_id scopes expires_in in
        All (λ s. laws.is_text s ≡ true) (texts c)
        → IsWritable jwt laws.is_text c (add_duration expires_from (expiry_of expires_in)) issued
  unfolding generated_claims
  generated_claims-IsWritable m jti expires_from issued user_id email org_id scopes expires_in
        text =
      record { text = text; expires_at = refl; issued_at = refl; not_before = refl }

  generate_token-Minted :
      (m : TokenManager) (jti : Str) (expires_from issued : ℕ) (user_id email org_id : Str)
      (scopes : List Str) (expires_in : ℤ) (token : Str)
      → All
          (λ s. laws.is_text s ≡ true)
          (texts
            (generated_claims jwt m jti expires_from issued user_id email org_id scopes expires_in))
      → generate_token jwt m jti expires_from issued user_id email org_id scopes expires_in
        ≡ ok token
      → Minted m
          (generated_claims jwt m jti expires_from issued user_id email org_id scopes expires_in)
          token
  unfolding generate_token
  generate_token-Minted m jti expires_from issued user_id email org_id scopes expires_in token text
        h =
      elim (Bool-cases (is_empty (current_secret m))) [
        | inl missing ↦ absurd (ground arith)
        | inr there ↦
            let c =
              generated_claims jwt m jti expires_from issued user_id email org_id scopes
                expires_in in
            let made : signed (jwt.signed_string hs256 (current_secret m) c) ≡ ok token =
              ground arith in
            let (method, authentic, body) =
              laws.signed_lem hs256 (current_secret m) c token
                (add_duration expires_from (expiry_of expires_in)) issued
                (generated_claims-IsWritable m jti expires_from issued user_id email org_id scopes
                  expires_in text)
                (signed-ok _ token made) in
            record {
              secret = is_empty-named (current_secret m) there;
              method = method;
              authentic = authentic;
              body = body;
            }
      ]

  -- The decoder leaves the identifier in one field, and `syncTokenID` puts it back into both.
  sync-read_back :
      (m : TokenManager) (jti : Str) (expires_from issued : ℕ) (user_id email org_id : Str)
      (scopes : List Str) (expires_in : ℤ)
      → jti ≢ []
      → let c =
          generated_claims jwt m jti expires_from issued user_id email org_id scopes expires_in in
        sync_token_id (read_back c) ≡ c
  unfolding sync_token_id token_id generated_claims
  sync-read_back m jti expires_from issued user_id email org_id scopes expires_in named =
      let test : (jti == []) ≡ false = ground (arith, eq_iff jti []) in rw (test, test)

  -- A minted token is accepted, with exactly the claims that were minted, by every manager that
  -- holds the secret as its current or its previous one, allows the issuer and asks for no other
  -- audience, up to the token's
  -- expiry. The minted strings are valid text, and the empty string is not pinned as an audience.
  pub minted_validates :
      (m m' : TokenManager) (jti : Str) (expires_from issued now : ℕ) (user_id email org_id : Str)
      (scopes : List Str) (expires_in : ℤ) (token : Str)
      → All
          (λ s. laws.is_text s ≡ true)
          (texts
            (generated_claims jwt m jti expires_from issued user_id email org_id scopes expires_in))
      → generate_token jwt m jti expires_from issued user_id email org_id scopes expires_in
        ≡ ok token
      → jti ≢ []
      → m'.audience ≢ some []
      → Holds jwt laws m' (current_secret m)
      → issuer_allowed m'.allowed_issuers m.issuer ≡ true
      → addressed m'.audience (audience_claim m.audience) ≡ true
      → ltb now (jwt.new_numeric_date (add_duration expires_from (expiry_of expires_in))) ≡ true
      → validate jwt m' now token
        ≡ ok (generated_claims jwt m jti expires_from issued user_id email org_id scopes expires_in)
  unfolding generated_claims
  minted_validates m m' jti expires_from issued now user_id email org_id scopes expires_in token
        text h named pinned held trusted aud live =
      let minted =
        generate_token-Minted m jti expires_from issued user_id email org_id scopes expires_in token
          text h in
      let synced =
        sync-read_back m jti expires_from issued user_id email org_id scopes expires_in named in
      (validate_iff jwt laws m' now token _ pinned).1 (
        current_secret m,
        held,
        record {
          named = minted.secret;
          method = minted.method;
          authentic = minted.authentic;
          body = _;
          decoded = minted.body;
          live = live;
          begun = refl;
          audience = aud;
          trusted = trusted;
          returned = sym synced;
        },
      )

  -- The rotation's overlap ends with `ClearPreviousSecret`: after it, an accepted token is one that
  -- verifies under the new secret, and that secret is not empty.
  rotation_ends :
      (m : TokenManager) (new_secret : Str) (now : ℕ) (token : Str) (c : Claims)
      → m.audience ≢ some []
      → validate jwt (clear_previous_secret (rotate_secret m new_secret)) now token ≡ ok c
      → (laws.verifies hs256 new_secret token ≡ true) × (new_secret ≢ [])
  unfolding clear_previous_secret rotate_secret current_secret
  rotation_ends m new_secret now token c pinned h =
      let (k, held, a) =
        (validate_iff jwt laws (clear_previous_secret (rotate_secret m new_secret)) now token c
            pinned).0
          h in
      elim held [
        | inl same ↦ (
          subst (λ j. laws.verifies hs256 j token ≡ true) (sym same) a.authentic,
          subst (λ j. j ≢ []) (sym same) a.named,
        )
        | inr gone ↦ absurd (cc gone)
      ]

  -- A token minted for an organization authorizes there exactly what its scopes grant, and nothing
  -- in any other organization; one that was minted without an organization authorizes nothing in
  -- any, whichever manager accepted it and whatever its scopes are. The minted
  -- strings are valid text, and the empty string is not pinned as an audience.
  pub minted_bound :
      (m m' : TokenManager) (jti : Str) (expires_from issued now : ℕ) (user_id email org_id : Str)
      (scopes : List Str) (expires_in : ℤ) (token : Str) (c : Claims) (asked required : Str)
      (rw_pairs : ReadWritePairs)
      → All
          (λ s. laws.is_text s ≡ true)
          (texts
            (generated_claims jwt m jti expires_from issued user_id email org_id scopes expires_in))
      → generate_token jwt m jti expires_from issued user_id email org_id scopes expires_in
        ≡ ok token
      → m'.audience ≢ some []
      → validate jwt m' now token ≡ ok c
      → has_scope_in_org (some c) asked required rw_pairs ≡ (
          if org_id == []
          then false
          else if asked == org_id
          then has_scope scopes required rw_pairs
          else false)
  unfolding has_scope_in_org org_bound claims_scopes generated_claims
  minted_bound m m' jti expires_from issued now user_id email org_id scopes expires_in token c asked
        required rw_pairs text h pinned accepted =
      let minted =
        generate_token-Minted m jti expires_from issued user_id email org_id scopes expires_in token
          text h in
      let (k, held, a) = (validate_iff jwt laws m' now token c pinned).0 accepted in
      let g =
        generated_claims jwt m jti expires_from issued user_id email org_id scopes expires_in in
      let body : a.body ≡ read_back g = cc (minted.body, a.decoded) in
      let same : c ≡ sync_token_id (read_back g) = a.returned ∙ ap sync_token_id body in
      let kept = sync-binding (read_back g) in
      let org : c.org_id ≡ org_id = ap (λ (x : Claims). x.org_id) same ∙ kept.0 in
      let granted : c.scopes ≡ scopes = ap (λ (x : Claims). x.scopes) same ∙ kept.1 in
      gate_lem c.org_id org_id asked required c.scopes scopes rw_pairs org granted
