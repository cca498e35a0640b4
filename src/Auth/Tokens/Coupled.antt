-- ===== src/Auth/Tokens/Coupled.antt =====
-- `NewCoupledTokenManager`: the pins that it sets.
use terraform_suite_identity.Common.{
  All, ℕ, ℤ, Str, ◌==◌, contains, contains_iff, In, List, [], is_empty, ◌≡◌, ◌≢◌, inl, refl, sym,
  ap, subst, ◌∙◌, true, false, Bool, ne_of_test, not, some, ltb, ok, err, arith, if◌then◌else◌,
}
use terraform_suite_identity.Auth.Claims.{Claims, sync_token_id}
use terraform_suite_identity.Auth.Tokens.{
  Jwt, issuer_required, audience_required, allowed_issuers_required, issuer_not_trusted,
  TokenManager, new_coupled_token_manager, new_token_manager, set_audience, set_allowed_issuers,
  issuer_allowed, add_duration, expiry_of, generated_claims, generate_token, validate,
}
use terraform_suite_identity.Auth.Tokens.Validation.{texts, addressed, JwtLaws, validate_iff}
use terraform_suite_identity.Auth.Tokens.Issued.{addressed_self, minted_validates}

-- What a manager that was constructed holds.
record CoupledManager (m : TokenManager) (secret issuer : Str) (allowed : List Str) (aud : Str)
    : Type 0 where
  own : m.issuer ≡ issuer
  secret_held : m.current ≡ some secret
  pinned : m.allowed_issuers ≡ some allowed
  audience : m.audience ≡ some aud
  named : issuer ≢ []
  addressee : aud ≢ []
  trusted : contains allowed issuer ≡ true

branches :
    (no_issuer no_aud no_allowed trusts : Bool) (x m : TokenManager)
    → (if no_issuer
        then err issuer_required
        else if no_aud
        then err audience_required
        else if no_allowed
        then err allowed_issuers_required
        else if not trusts
        then err issuer_not_trusted
        else ok x)
      ≡ ok m
    → (no_issuer ≡ false) × (no_aud ≡ false) × (trusts ≡ true) × (x ≡ m)
branches true b c d x m h = cc h
branches false true c d x m h = cc h
branches false false true d x m h = cc h
branches false false false false x m h = cc h
branches false false false true x m h = (refl, refl, refl, cc h)

coupled-CoupledManager :
    (secret issuer : Str) (allowed : List Str) (aud : Str) (m : TokenManager)
    → new_coupled_token_manager secret issuer allowed aud ≡ ok m
    → CoupledManager m secret issuer allowed aud
unfolding new_coupled_token_manager new_token_manager set_audience set_allowed_issuers
coupled-CoupledManager secret issuer allowed aud m h =
    let (named, no_aud, trusted, same) =
      branches (issuer == []) (aud == []) (is_empty allowed) (contains allowed issuer) _ m h in
    record {
      own = ap (λ (x : TokenManager). x.issuer) (sym same);
      secret_held = ap (λ (x : TokenManager). x.current) (sym same);
      pinned = ap (λ (x : TokenManager). x.allowed_issuers) (sym same);
      audience = ap (λ (x : TokenManager). x.audience) (sym same) ∙ rw no_aud refl;
      named = ne_of_test issuer [] named;
      addressee = ne_of_test aud [] no_aud;
      trusted = trusted;
    }

coupled-pinned :
    (secret issuer : Str) (allowed : List Str) (aud : Str) (m : TokenManager)
    → new_coupled_token_manager secret issuer allowed aud ≡ ok m
    → m.audience ≢ some []
coupled-pinned secret issuer allowed aud m made empty =
    let coupled = coupled-CoupledManager secret issuer allowed aud m made in
    coupled.addressee (cc (coupled.audience, empty))

sync-registered :
    (c : Claims)
    → ((sync_token_id c).registered.issuer ≡ c.registered.issuer)
      × ((sync_token_id c).registered.audience ≡ c.registered.audience)
unfolding sync_token_id
sync-registered c = (ground arith, ground arith)

module _ (jwt : Jwt) (laws : JwtLaws jwt) where
  -- A coupled manager accepts a token only from an issuer of its list and only if the token is
  -- addressed to its audience.
  coupled_pins :
      (secret issuer : Str) (allowed : List Str) (aud : Str) (m : TokenManager) (now : ℕ)
      (token : Str) (c : Claims)
      → new_coupled_token_manager secret issuer allowed aud ≡ ok m
      → validate jwt m now token ≡ ok c
      → In c.registered.issuer allowed × In aud c.registered.audience
  unfolding issuer_allowed
  coupled_pins secret issuer allowed aud m now token c made h =
      let (k, held, a) =
        (validate_iff jwt laws m now token c (coupled-pinned secret issuer allowed aud m made)).0
          h in
      let coupled = coupled-CoupledManager secret issuer allowed aud m made in
      let kept = sync-registered a.body in
      let from : contains allowed a.body.registered.issuer ≡ true =
        subst (λ o. issuer_allowed o a.body.registered.issuer ≡ true) coupled.pinned a.trusted in
      let to : contains a.body.registered.audience aud ≡ true =
        subst (λ o. addressed o a.body.registered.audience ≡ true) coupled.audience a.audience in
      let iss : c.registered.issuer ≡ a.body.registered.issuer =
        ap (λ (x : Claims). x.registered.issuer) a.returned ∙ kept.0 in
      let auds : c.registered.audience ≡ a.body.registered.audience =
        ap (λ (x : Claims). x.registered.audience) a.returned ∙ kept.1 in
      (
        subst (λ i. In i allowed) (sym iss) ((contains_iff allowed _).0 from),
        subst (λ l. In aud l) (sym auds) ((contains_iff _ aud).0 to),
      )

  -- A coupled manager accepts the tokens that it mints itself, with the claims that it minted, up to
  -- their expiry.
  coupled_accepts_own :
      (secret issuer : Str) (allowed : List Str) (aud : Str) (m : TokenManager) (jti : Str)
      (expires_from issued now : ℕ) (user_id email org_id : Str) (scopes : List Str)
      (expires_in : ℤ) (token : Str)
      → new_coupled_token_manager secret issuer allowed aud ≡ ok m
      → All
          (λ s. laws.is_text s ≡ true)
          (texts
            (generated_claims jwt m jti expires_from issued user_id email org_id scopes expires_in))
      → generate_token jwt m jti expires_from issued user_id email org_id scopes expires_in
        ≡ ok token
      → jti ≢ []
      → ltb now (jwt.new_numeric_date (add_duration expires_from (expiry_of expires_in))) ≡ true
      → validate jwt m now token
        ≡ ok (generated_claims jwt m jti expires_from issued user_id email org_id scopes expires_in)
  unfolding issuer_allowed
  coupled_accepts_own secret issuer allowed aud m jti expires_from issued now user_id email org_id
        scopes expires_in token made text h named live =
      let coupled = coupled-CoupledManager secret issuer allowed aud m made in
      minted_validates jwt laws m m jti expires_from issued now user_id email org_id scopes
        expires_in token text h named (coupled-pinned secret issuer allowed aud m made) (inl refl)
        (subst (λ o. issuer_allowed o m.issuer ≡ true) (sym coupled.pinned)
          (subst (λ i. contains allowed i ≡ true) (sym coupled.own) coupled.trusted))
        (addressed_self m.audience) live
