-- ===== src/Auth/ApiKeys/Tests.antt =====
-- Key generation with a hash that is the password itself, and a header, with witnesses.
use terraform_suite_identity.Common.{
  ℕ, zero, suc, some_inj, lit, ◌==◌, length, take, eq_refl, List, [], ◌∷◌, ◌++◌, All, ◌≤◌, ◌<◌,
  true, some, ok, err, ◌≡◌, refl, subst, arith,
}
use terraform_suite_identity.OauthState.Manager.{raw_url_encode}
use terraform_suite_identity.Auth.ApiKeys.{
  Bcrypt, prefix_too_long, ApiKey, full_key, display, generate_api_key, validate_api_key,
  display_prefix_length, min_prefix_random_chars, max_api_key_prefix_length,
}
use terraform_suite_identity.Auth.ApiKeys.Generated.{
  IsByte, BcryptLaws, generated_bounds, validate-generate,
}

-- A hash is its password.
abbrev open_hash : Bcrypt
open_hash = record {
  generate_from_password = λ password cost. some password;
  compare_hash_and_password = λ hash password. hash == password;
}

open_hash-BcryptLaws : BcryptLaws open_hash
open_hash-BcryptLaws = record {
  verifies = λ password hash cost e.
      subst (λ h. h == password ≡ true) (some_inj password hash e) (eq_refl password);
  hashes = λ password n e. cc e;
}

abbrev sevens : ℕ → List ℕ
sevens zero = []
sevens (suc n) = 7 ∷ sevens n

abbrev random : List ℕ
random = sevens 32

random-IsByte : (n : ℕ) → All IsByte (sevens n)
random-IsByte zero = tt
random-IsByte (suc n) = (omega arith, random-IsByte n)

abbrev generated : ApiKey
generated = record {
  key = full_key (lit "tfr") random;
  hash = full_key (lit "tfr") random;
  display_prefix = display (full_key (lit "tfr") random);
}

generates : generate_api_key open_hash (some random) (lit "tfr") ≡ ok generated
unfolding generate_api_key
generates = refl

generated_bounds_example :
    (length generated.key ≤ 72)
    × (length generated.display_prefix ≡ display_prefix_length)
    × ((n : ℕ) × (min_prefix_random_chars ≤ n)
        × (generated.display_prefix ≡ lit "tfr" ++ (lit "_" ++ take n (raw_url_encode random))))
generated_bounds_example =
    generated_bounds open_hash random (lit "tfr") generated (random-IsByte 32) refl generates

validate-generate_example :
    (length (lit "tfr") ≤ max_api_key_prefix_length
      → (k : ApiKey) × (generate_api_key open_hash (some random) (lit "tfr") ≡ ok k)
        × (validate_api_key open_hash k.key k.hash ≡ true))
    × (max_api_key_prefix_length < length (lit "tfr")
        → generate_api_key open_hash (some random) (lit "tfr") ≡ err prefix_too_long)
validate-generate_example =
    validate-generate open_hash random (lit "tfr") open_hash-BcryptLaws (random-IsByte 32) refl
