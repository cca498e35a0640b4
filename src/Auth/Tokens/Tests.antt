-- ===== src/Auth/Tokens/Tests.antt =====
-- The token manager: tests, and the theorems at concrete inputs.
use terraform_suite_identity.Common.{
  pos, Str, All, ◌≢◌, lit, ◌==◌, contains, [], ◌∷◌, ◌≡◌, ◌↔◌, inl, inr, refl, true, false, none,
  some, ltb, ok, if◌then◌else◌,
}
use terraform_suite_identity.Auth.Claims.{Claims}
use terraform_suite_identity.Auth.Scopes.{has_scope, has_scope_in_org}
use terraform_suite_identity.Auth.Tokens.{
  hs256, TokenManager, new_token_manager, new_coupled_token_manager, rotate_secret,
  clear_previous_secret, set_audience, set_allowed_issuers, current_secret, generate_token,
  generated_claims, validate, issuer_allowed, signed, expiry_of, add_duration, audience_claim,
}
use terraform_suite_identity.Auth.Tokens.Validation.{
  texts, addressed, Accepted, Holds, validate_iff,
}
use terraform_suite_identity.Auth.Tokens.Issued.{minted_validates, minted_bound}
use terraform_suite_identity.Auth.Tokens.Toy.{toy, toy_laws, toy_text}

abbrev registry : TokenManager
registry = record {
  issuer = lit "registry";
  current = some (lit "secret");
  previous = none;
  allowed_issuers = some (lit "registry" ∷ []);
  audience = some (lit "suite");
}

abbrev rotated : TokenManager
rotated = record registry { current = some (lit "fresh"); previous = some (lit "secret") }

abbrev org_claims : Claims
org_claims =
    generated_claims toy registry (lit "j1") 1000000000 1000000000 (lit "u") (lit "u@x")
      (lit "org1") (lit "modules:write" ∷ []) (pos 0)

-- The token that the toy library makes of the claims.
abbrev token1 : Str
token1 = elim (toy.signed_string hs256 (lit "secret") org_claims) [ none ↦ [] | some t ↦ t ]

-- Every string is text for the toy library.
org_claims-All : All (λ s. toy_laws.is_text s ≡ true) (texts org_claims)
unfolding generated_claims audience_claim
org_claims-All = (
  toy_text _,
  (
    toy_text _,
    (toy_text _, (toy_text _, (toy_text _, (toy_text _, (toy_text _, (toy_text _, tt)))))),
  ),
)

mints :
    generate_token toy registry
      (lit "j1")
      1000000000
      1000000000
      (lit "u")
      (lit "u@x")
      (lit "org1")
      (lit "modules:write" ∷ [])
      (pos 0)
    ≡ ok token1
unfolding generate_token current_secret signed
mints = refl

coupled_makes :
    new_coupled_token_manager (lit "secret") (lit "registry") (lit "registry" ∷ []) (lit "suite")
    ≡ ok registry
unfolding new_coupled_token_manager set_audience set_allowed_issuers new_token_manager contains ◌==◌
coupled_makes = refl

registry_trusts : issuer_allowed registry.allowed_issuers (lit "registry") ≡ true
unfolding issuer_allowed contains ◌==◌
registry_trusts = refl

registry_addressed : contains (audience_claim registry.audience) (lit "suite") ≡ true
unfolding audience_claim contains ◌==◌
registry_addressed = refl

rotated-Holds : Holds toy toy_laws rotated (current_secret registry)
unfolding current_secret
rotated-Holds = inr refl

token1_live :
    ltb 5000000000 (toy.new_numeric_date (add_duration 1000000000 (expiry_of (pos 0)))) ≡ true
unfolding add_duration expiry_of
token1_live = refl

minted_validates_example : validate toy rotated 5000000000 token1 ≡ ok org_claims
minted_validates_example =
    minted_validates toy toy_laws registry rotated (lit "j1") 1000000000 1000000000 5000000000
      (lit "u") (lit "u@x") (lit "org1") (lit "modules:write" ∷ []) (pos 0) token1 org_claims-All
      mints (λ h. cc h) (λ h. cc h) rotated-Holds registry_trusts registry_addressed token1_live

validate_iff_example : (validate toy rotated 5000000000 token1 ≡ ok org_claims) ↔ (
    (secret : Str) × Holds toy toy_laws rotated secret
    × Accepted toy toy_laws rotated 5000000000 token1 secret org_claims)
validate_iff_example = validate_iff toy toy_laws rotated 5000000000 token1 org_claims (λ h. cc h)

minted_bound_example : has_scope_in_org (some org_claims) (lit "org2") (lit "modules:write") [] ≡ (
    if lit "org1" == []
    then false
    else if lit "org2" == lit "org1"
    then has_scope (lit "modules:write" ∷ []) (lit "modules:write") []
    else false)
minted_bound_example =
    minted_bound toy toy_laws registry rotated (lit "j1") 1000000000 1000000000 5000000000 (lit "u")
      (lit "u@x") (lit "org1") (lit "modules:write" ∷ []) (pos 0) token1 org_claims (lit "org2")
      (lit "modules:write") [] org_claims-All mints (λ h. cc h) minted_validates_example

-- After a rotation back to the token's secret, and the end of its overlap.
abbrev returned : TokenManager
returned =
    clear_previous_secret
      (rotate_secret (record registry { current = some (lit "old") }) (lit "secret"))

returned-Holds : Holds toy toy_laws returned (current_secret registry)
unfolding current_secret clear_previous_secret rotate_secret
returned-Holds = inl refl

returned_pinned : returned.audience ≢ some []
unfolding clear_previous_secret rotate_secret
returned_pinned h = cc h

returned_trusts : issuer_allowed returned.allowed_issuers (lit "registry") ≡ true
unfolding clear_previous_secret rotate_secret issuer_allowed contains ◌==◌
returned_trusts = refl

returned_addressed : addressed returned.audience (audience_claim registry.audience) ≡ true
unfolding clear_previous_secret rotate_secret audience_claim contains ◌==◌
returned_addressed = refl

returned_accepts : validate toy returned 5000000000 token1 ≡ ok org_claims
returned_accepts =
    minted_validates toy toy_laws registry returned (lit "j1") 1000000000 1000000000 5000000000
      (lit "u") (lit "u@x") (lit "org1") (lit "modules:write" ∷ []) (pos 0) token1 org_claims-All
      mints (λ h. cc h) returned_pinned returned-Holds returned_trusts returned_addressed
      token1_live
