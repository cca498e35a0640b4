-- ===== src/Auth/Tokens/Validation.antt =====
-- What `Validate` accepts, given what the JWT library documents.
use terraform_suite_identity.Common.{
  ℕ, Str, contains, List, [], ◌∷◌, ◌≡◌, ◌≢◌, ◌↔◌, ◌⊎◌, inl, inr, refl, sym, ap, subst, ◌∙◌, Bool,
  true, false, not, ◌++◌, All, Option, none, some, ltb, Result, ok, err, arith,
}
use terraform_suite_identity.Auth.Claims.{Claims, sync_token_id}
use terraform_suite_identity.Auth.Tokens.{
  Method, hs256, other, Jwt, TokenError, TokenManager, issuer_allowed, current_secret, accept,
  hs256_key, validate_with, or_previous, validate,
}

-- The check of `exp`: a token without it does not expire.
abbrev pub unexpired : Option ℕ → ℕ → Bool
unexpired none now = true
unexpired (some t) now = ltb now t

-- The check of `nbf`: a token without it is valid at once.
abbrev pub started : Option ℕ → ℕ → Bool
started none now = true
started (some t) now = not (ltb now t)

-- The check of `aud` that `jwt.WithAudience` asks for.
abbrev pub addressed : Option Str → List Str → Bool
addressed none audience = true
addressed (some aud) audience = contains audience aud

-- A token's body has one identifier, which the decoder writes into the shallower field.
abbrev pub read_back : Claims → Claims
read_back c = record c { registered = record (c.registered) { id = [] } }

-- The strings that stand in a token's body.
abbrev pub texts : Claims → List Str
texts c =
    c.user_id
    ∷ c.email
    ∷ c.org_id
    ∷ c.jti
    ∷ c.registered.issuer
    ∷ c.registered.subject
    ∷ (c.registered.audience ++ c.scopes)

-- Claims that the encoder writes as they are: strings of valid text, two times that the library's
-- constructor made, and no `nbf`.
pub record IsWritable (jwt : Jwt) (is_text : Str → Bool) (c : Claims) (expires issued : ℕ)
    : Type 0 where
  pub text : All (λ s. is_text s ≡ true) (texts c)
  pub expires_at : c.registered.expires_at ≡ some (jwt.new_numeric_date expires)
  pub issued_at : c.registered.issued_at ≡ some (jwt.new_numeric_date issued)
  pub not_before : c.registered.not_before ≡ none

-- What the library documents: the token's algorithm, whether its signature verifies under a key, the
-- claims in its body, the strings that its encoder keeps (those of valid UTF-8), and how parsing and
-- signing depend on them. An audience that is asked for is not empty.
pub record JwtLaws (jwt : Jwt) : Type 0 where
  pub algorithm : Str → Method
  pub verifies : Method → Str → Str → Bool
  pub decode : Str → Option Claims
  pub is_text : Str → Bool
  pub parse_iff :
      (key : Method → Option Str) (aud : Option Str) (now : ℕ) (token : Str) (c : Claims)
      → aud ≢ some []
      → (jwt.parse_with_claims key aud now token ≡ some (true, c)) ↔ (
          (k : Str) × (key (algorithm token) ≡ some k)
          × (verifies (algorithm token) k token ≡ true)
          × (decode token ≡ some c)
          × (unexpired c.registered.expires_at now ≡ true)
          × (started c.registered.not_before now ≡ true)
          × (addressed aud c.registered.audience ≡ true))
  pub signed_lem :
      (m : Method) (k : Str) (c : Claims) (token : Str) (expires issued : ℕ)
      → IsWritable jwt is_text c expires issued
      → jwt.signed_string m k c ≡ some token
      → (algorithm token ≡ m) × (verifies m k token ≡ true) × (decode token ≡ some (read_back c))

module _ (jwt : Jwt) (laws : JwtLaws jwt) where
  -- The token is accepted under one secret, with these claims.
  pub record Accepted (m : TokenManager) (now : ℕ) (token secret : Str) (c : Claims) : Type 0 where
    pub named : secret ≢ []
    pub method : laws.algorithm token ≡ hs256
    pub authentic : laws.verifies hs256 secret token ≡ true
    pub body : Claims
    pub decoded : laws.decode token ≡ some body
    pub live : unexpired body.registered.expires_at now ≡ true
    pub begun : started body.registered.not_before now ≡ true
    pub audience : addressed m.audience body.registered.audience ≡ true
    pub trusted : issuer_allowed m.allowed_issuers body.registered.issuer ≡ true
    pub returned : c ≡ sync_token_id body

  -- The secrets that a manager accepts.
  abbrev pub Holds : TokenManager → Str → Type 0
  Holds m secret = (current_secret m ≡ secret) ⊎ (m.previous ≡ some secret)

  hs256_key-some :
      (secret k : Str) (a : Method) → hs256_key secret a ≡ some k → (a ≡ hs256) × (secret ≡ k)
  unfolding hs256_key
  hs256_key-some secret k hs256 h = (refl, cc h)
  hs256_key-some secret k (other n) h = cc h

  accept-ok :
      (allowed : Option (List Str)) (r : Option (Bool × Claims)) (c : Claims)
      → accept allowed r ≡ ok c
      → (d : Claims) × (r ≡ some (true, d))
        × (issuer_allowed allowed d.registered.issuer ≡ true)
        × (c ≡ sync_token_id d)
  unfolding accept
  accept-ok allowed none c h = cc h
  accept-ok allowed (some (false, d)) c h = cc h
  accept-ok allowed (some (true, d)) c h = (d, refl, ground arith, ground arith)

  validate_with-Accepted :
      (m : TokenManager) (now : ℕ) (token secret : Str) (c : Claims)
      → m.audience ≢ some []
      → validate_with jwt m now token secret ≡ ok c
      → Accepted m now token secret c
  unfolding validate_with
  validate_with-Accepted m now token [] c pinned h = cc h
  validate_with-Accepted m now token (x ∷ xs) c pinned h =
      let secret = x ∷ xs in
      let (d, parsed, trusted, same) = accept-ok m.allowed_issuers _ c h in
      let (k, key, good, decoded, live, begun, aud) =
        (laws.parse_iff (hs256_key secret) m.audience now token d pinned).0 parsed in
      let (method, self) = hs256_key-some secret k (laws.algorithm token) key in
      record {
        named = λ e. cc e;
        method = method;
        authentic =
            subst (λ a. laws.verifies a secret token ≡ true) method
              (subst (λ j. laws.verifies (laws.algorithm token) j token ≡ true) (sym self) good);
        body = d;
        decoded = decoded;
        live = live;
        begun = begun;
        audience = aud;
        trusted = trusted;
        returned = same;
      }

  accept-true :
      (allowed : Option (List Str)) (d : Claims)
      → issuer_allowed allowed d.registered.issuer ≡ true
      → accept allowed (some (true, d)) ≡ ok (sync_token_id d)
  unfolding accept
  accept-true allowed d h = rw h refl

  Accepted-validate_with :
      (m : TokenManager) (now : ℕ) (token secret : Str) (c : Claims)
      → m.audience ≢ some []
      → Accepted m now token secret c
      → validate_with jwt m now token secret ≡ ok c
  unfolding validate_with hs256_key
  Accepted-validate_with m now token [] c pinned a = elim (a.named refl) [ ]
  Accepted-validate_with m now token (x ∷ xs) c pinned a =
      let key : hs256_key (x ∷ xs) (laws.algorithm token) ≡ some (x ∷ xs) = rw a.method refl in
      let good : laws.verifies (laws.algorithm token) (x ∷ xs) token ≡ true =
        rw a.method a.authentic in
      let parsed =
        (laws.parse_iff (hs256_key (x ∷ xs)) m.audience now token a.body pinned).1
          (x ∷ xs, key, good, a.decoded, a.live, a.begun, a.audience) in
      ap (accept m.allowed_issuers) parsed
      ∙ accept-true m.allowed_issuers a.body a.trusted
      ∙ ap ok (sym a.returned)

  or_previous-ok :
      (a : Result TokenError Claims) (p : Option Str) (f : Str → Result TokenError Claims)
      (c : Claims)
      → or_previous a (elim p [ none ↦ none | some prev ↦ some (f prev) ]) ≡ ok c
      → (a ≡ ok c) ⊎ ((k : Str) × (p ≡ some k) × (f k ≡ ok c))
  unfolding or_previous
  or_previous-ok (ok x) p f c h = inl h
  or_previous-ok (err e) none f c h = cc h
  or_previous-ok (err e) (some k) f c h = inr (k, refl, second (f k) h)
    where
      second : (b : Result TokenError Claims) → or_previous (err e) (some b) ≡ ok c → b ≡ ok c
      second (ok x) g = g
      second (err e') g = cc g

  or_previous-first :
      (a : Result TokenError Claims) (b : Option (Result TokenError Claims)) (c : Claims)
      → a ≡ ok c
      → or_previous a b ≡ ok c
  unfolding or_previous
  or_previous-first (ok x) b c h = h
  or_previous-first (err e) b c h = cc h

  or_previous-second :
      (a : Result TokenError Claims) (p : Option Str) (f : Str → Result TokenError Claims) (k : Str)
      (c : Claims)
      → p ≡ some k
      → f k ≡ ok c
      → ((d : Claims) → a ≡ ok d → d ≡ c)
      → or_previous a (elim p [ none ↦ none | some prev ↦ some (f prev) ]) ≡ ok c
  unfolding or_previous
  or_previous-second (ok x) p f k c held good one = ap ok (one x refl)
  or_previous-second (err e) p f k c held good one = rw (held, good) refl

  -- Two secrets that accept one token give the same claims.
  Accepted-agree :
      (m : TokenManager) (now : ℕ) (token k j : Str) (c d : Claims)
      → Accepted m now token k c
      → Accepted m now token j d
      → d ≡ c
  Accepted-agree m now token k j c d a b =
      let same : b.body ≡ a.body = cc (a.decoded, b.decoded) in
      b.returned ∙ ap sync_token_id same ∙ sym a.returned

  Accepted-validate :
      (m : TokenManager) (now : ℕ) (token : Str) (c : Claims) (k : Str)
      → m.audience ≢ some []
      → Holds m k
      → Accepted m now token k c
      → validate jwt m now token ≡ ok c
  unfolding validate
  Accepted-validate m now token c k pinned (inl held) a =
      or_previous-first (validate_with jwt m now token (current_secret m)) _ c (
        Accepted-validate_with m now token (current_secret m) c pinned
          (subst (λ j. Accepted m now token j c) (sym held) a))
  Accepted-validate m now token c k pinned (inr held) a =
      or_previous-second (validate_with jwt m now token (current_secret m)) m.previous
        (validate_with jwt m now token) k c held (Accepted-validate_with m now token k c pinned a)
        (λ d good.
          Accepted-agree m now token k (current_secret m) c d a
            (validate_with-Accepted m now token (current_secret m) d pinned good))

  -- `Validate` accepts a token exactly if its signature is HS256 under the current or the previous
  -- secret, that secret is not empty, the token is not expired, its not-before time, if it has one, has come, its audience and issuer pass the
  -- pins that are set; and it returns the claims of the token's body with the identifier in both
  -- fields. The library parses as it documents, and a pinned audience is not the empty string.
  pub validate_iff :
      (m : TokenManager) (now : ℕ) (token : Str) (c : Claims)
      → m.audience ≢ some []
      → (validate jwt m now token ≡ ok c)
        ↔ ((secret : Str) × Holds m secret × Accepted m now token secret c)
  unfolding validate
  validate_iff m now token c pinned = (
    λ h. elim (or_previous-ok (validate_with jwt m now token (current_secret m)) m.previous _ c h) [
      | inl good ↦ (
        current_secret m,
        inl refl,
        validate_with-Accepted m now token (current_secret m) c pinned good,
      )
      | inr (k, held, good) ↦ (k, inr held, validate_with-Accepted m now token k c pinned good)
    ],
    λ (k, held, a). Accepted-validate m now token c k pinned held a,
  )
