-- ===== src/Auth/Tokens.antt =====
-- identity/auth/jwt.go: `TokenManager`. The JWT library is an argument. A pointer that may be nil is
-- an option; each setter's atomic store is one step, so the manager is a record that is passed on.
-- An identifier of `uuid.NewString` and the times that a call reads are arguments.
pub mod Validation
pub mod Issued
pub mod Coupled
pub mod Toy
mod Tests
use terraform_suite_identity.Common.{
  ℕ, zero, suc, ◌+◌, ◌-◌, ℤ, pos, negsuc, Str, ◌==◌, contains, List, [], ◌∷◌, is_empty, Bool, true,
  false, not, Option, none, some, Result, ok, err, if◌then◌else◌,
}
use terraform_suite_identity.Auth.Claims.{Claims, sync_token_id}

-- The signing methods: HS256, and every other one by a number.
pub data Method : Type 0 where
  hs256 : Method
  other : ℕ → Method

-- The library's functions that the manager calls. `parse_with_claims` takes the key function, the
-- audience of `jwt.WithAudience` if that option is passed, the time and the token; a token that it
-- returns is its `Valid` flag and its claims.
pub record Jwt : Type 0 where
  pub new_numeric_date : ℕ → ℕ
  pub signed_string : Method → Str → Claims → Option Str
  pub parse_with_claims : (Method → Option Str) → Option Str → ℕ → Str → Option (Bool × Claims)

pub data TokenError : Type 0 where
  no_signing_secret sign_failed parse_failed invalid_token issuer_not_allowed : TokenError

pub data CoupledError : Type 0 where
  issuer_required audience_required allowed_issuers_required issuer_not_trusted : CoupledError

pub record TokenManager : Type 0 where
  pub issuer : Str
  pub current : Option Str
  pub previous : Option Str
  pub allowed_issuers : Option (List Str)
  pub audience : Option Str

unfoldable pub new_token_manager : Str → Str → TokenManager
new_token_manager secret issuer = record {
  issuer = issuer;
  current = some secret;
  previous = none;
  allowed_issuers = none;
  audience = none;
}

unfoldable pub rotate_secret : TokenManager → Str → TokenManager
rotate_secret m new_secret = record m {
  current = some new_secret;
  previous = elim m.current [ none ↦ m.previous | some cur ↦ some cur ];
}

unfoldable pub clear_previous_secret : TokenManager → TokenManager
clear_previous_secret m = record m { previous = none }

-- `none` is a nil slice.
unfoldable pub set_allowed_issuers : TokenManager → Option (List Str) → TokenManager
set_allowed_issuers m issuers = record m { allowed_issuers = issuers }

unfoldable pub set_audience : TokenManager → Str → TokenManager
set_audience m aud = record m { audience = if aud == [] then none else some aud }

unfoldable pub new_coupled_token_manager :
    Str → Str → List Str → Str → Result CoupledError TokenManager
unfolding set_audience set_allowed_issuers
new_coupled_token_manager secret issuer allowed_issuers audience =
    if issuer == []
    then err issuer_required
    else if audience == []
    then err audience_required
    else if is_empty allowed_issuers
    then err allowed_issuers_required
    else if not (contains allowed_issuers issuer)
    then err issuer_not_trusted
    else ok (
        set_audience (set_allowed_issuers (new_token_manager secret issuer) (some allowed_issuers))
          audience)

pub issuer_allowed : Option (List Str) → Str → Bool
issuer_allowed none iss = true
issuer_allowed (some allowed) iss = contains allowed iss

pub current_secret : TokenManager → Str
current_secret m = elim m.current [ none ↦ [] | some p ↦ p ]

-- `DefaultExpiry`, an hour in nanoseconds.
abbrev pub default_expiry : ℤ
default_expiry = pos 3600000000000

-- `expiresIn == 0`
pub expiry_of : ℤ → ℤ
expiry_of (pos zero) = default_expiry
expiry_of expires_in = expires_in

-- `t.Add(d)`, for instants from 0 on.
pub add_duration : ℕ → ℤ → ℕ
add_duration t (pos d) = t + d
add_duration t (negsuc d) = t - suc d

-- `jwt.ClaimStrings{*aud}`, or none.
pub audience_claim : Option Str → List Str
audience_claim none = []
audience_claim (some aud) = aud ∷ []

-- The claims that a check of the token's signature returned.
pub accept : Option (List Str) → Option (Bool × Claims) → Result TokenError Claims
unfolding issuer_allowed
accept allowed none = err parse_failed
accept allowed (some (false, claims)) = err invalid_token
accept allowed (some (true, claims)) =
    if not (issuer_allowed allowed claims.registered.issuer)
    then err issuer_not_allowed
    else ok (sync_token_id claims)

-- The key function.
unfoldable pub hs256_key : Str → Method → Option Str
hs256_key secret hs256 = some secret
hs256_key secret (other n) = none

pub signed : Option Str → Result TokenError Str
signed none = err sign_failed
signed (some token) = ok token

-- `Validate` after its first attempt; the last argument is the second.
pub or_previous :
    Result TokenError Claims → Option (Result TokenError Claims) → Result TokenError Claims
or_previous (ok claims) second = ok claims
or_previous (err e) none = err e
or_previous (err e) (some (ok claims)) = ok claims
or_previous (err e) (some (err e')) = err e

module _ (jwt : Jwt) where
  -- The claims of `generate`; `expires_from` and `issued` are the two times that it reads.
  unfoldable pub generated_claims :
      TokenManager → Str → ℕ → ℕ → Str → Str → Str → List Str → ℤ → Claims
  unfolding add_duration expiry_of audience_claim
  generated_claims m jti expires_from issued user_id email org_id scopes expires_in = record {
    user_id = user_id;
    email = email;
    org_id = org_id;
    scopes = scopes;
    jti = jti;
    registered = record {
      issuer = m.issuer;
      subject = user_id;
      audience = audience_claim m.audience;
      expires_at = some (jwt.new_numeric_date (add_duration expires_from (expiry_of expires_in)));
      not_before = none;
      issued_at = some (jwt.new_numeric_date issued);
      id = jti;
    };
  }

  unfoldable pub generate_token :
      TokenManager → Str → ℕ → ℕ → Str → Str → Str → List Str → ℤ → Result TokenError Str
  unfolding current_secret signed
  generate_token m jti expires_from issued user_id email org_id scopes expires_in =
      if is_empty (current_secret m)
      then err no_signing_secret
      else signed (
          jwt.signed_string hs256 (current_secret m)
            (generated_claims m jti expires_from issued user_id email org_id scopes expires_in))

  unfoldable pub generate :
      TokenManager → Str → ℕ → ℕ → Str → Str → List Str → ℤ → Result TokenError Str
  generate m jti expires_from issued user_id email scopes expires_in =
      generate_token m jti expires_from issued user_id email [] scopes expires_in

  unfoldable pub generate_for_org :
      TokenManager → Str → ℕ → ℕ → Str → Str → Str → List Str → ℤ → Result TokenError Str
  generate_for_org m jti expires_from issued user_id email org_id scopes expires_in =
      generate_token m jti expires_from issued user_id email org_id scopes expires_in

  unfoldable pub validate_with : TokenManager → ℕ → Str → Str → Result TokenError Claims
  unfolding accept hs256_key
  validate_with m now token secret =
      if is_empty secret
      then err no_signing_secret
      else accept m.allowed_issuers (jwt.parse_with_claims (hs256_key secret) m.audience now token)

  unfoldable pub validate : TokenManager → ℕ → Str → Result TokenError Claims
  unfolding or_previous current_secret
  validate m now token =
      or_previous (validate_with m now token (current_secret m))
        (elim m.previous [ none ↦ none | some prev ↦ some (validate_with m now token prev) ])
