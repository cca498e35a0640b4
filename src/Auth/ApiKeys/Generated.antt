-- ===== src/Auth/ApiKeys/Generated.antt =====
-- The lengths of a generated key and of its display prefix, and its verification
-- (identity/auth/apikey.go).
use terraform_suite_identity.Common.{
  ℕ, zero, suc, ◌+◌, ◌-◌, ◌*◌, ◌/◌, ◌%◌, ◌≤◌, ◌<◌, Str, lit, nat_eq, ltb, List, [], ◌∷◌, ◌++◌,
  length, length-append, take, All, passes, passes-at, Bool, true, false, Option, none, some,
  if◌then◌else◌, Result, ok, err, ok_inj, ◌≡◌, ◌≢◌, refl, sym, ap, ◌∙◌, arith,
}
use terraform_suite_identity.OauthState.Manager.{symbol, raw_url_encode}
use terraform_suite_identity.Auth.ApiKeys.{
  Bcrypt, ApiKeyError, prefix_too_long, not_hashed, ApiKey, full_key, display, hash_key,
  generate_api_key, validate_api_key, bcrypt_cost, api_key_length, display_prefix_length,
  min_prefix_random_chars, max_api_key_prefix_length,
}

-- How many characters encode a number of bytes.
abbrev raw_length : ℕ → ℕ
raw_length zero = 0
raw_length (suc zero) = 2
raw_length (suc (suc zero)) = 3
raw_length (suc (suc (suc n))) = 4 + raw_length n

symbol_table : passes (λ n. nat_eq (length (symbol n)) 1) 64 ≡ true
unfolding passes symbol
symbol_table = refl

length-symbol : (n : ℕ) → n < 64 → length (symbol n) ≡ 1
length-symbol n h =
    let t = passes-at (λ n. nat_eq (length (symbol n)) 1) 64 n h symbol_table in ground (arith, t)

abbrev pub IsByte : ℕ → Type 0
IsByte b = b < 256

length-raw_url_encode :
    (bs : List ℕ) → All IsByte bs → length (raw_url_encode bs) ≡ raw_length (length bs)
unfolding raw_url_encode
length-raw_url_encode [] h = refl
length-raw_url_encode (a ∷ []) h =
    let p = length-symbol (a / 4) (omega (arith, h.0)) in
    let q = length-symbol (a % 4 * 16) (omega arith) in
    length-append (symbol (a / 4)) (symbol (a % 4 * 16)) ∙ omega (arith, p, q)
length-raw_url_encode (a ∷ b ∷ []) h =
    let p = length-symbol (a / 4) (omega (arith, h.0)) in
    let q = length-symbol (a % 4 * 16 + b / 16) (omega (arith, h.1.0)) in
    let r = length-symbol (b % 16 * 4) (omega arith) in
    let s = length-append (symbol (a % 4 * 16 + b / 16)) (symbol (b % 16 * 4)) in
    length-append (symbol (a / 4)) (symbol (a % 4 * 16 + b / 16) ++ symbol (b % 16 * 4))
    ∙ omega (arith, p, q, r, s)
length-raw_url_encode (a ∷ b ∷ c ∷ rest) h =
    let p = length-symbol (a / 4) (omega (arith, h.0)) in
    let q = length-symbol (a % 4 * 16 + b / 16) (omega (arith, h.1.0)) in
    let r = length-symbol (b % 16 * 4 + c / 64) (omega (arith, h.1.1.0)) in
    let s = length-symbol (c % 64) (omega arith) in
    let ih = length-raw_url_encode rest (h.1.1.1) in
    let s1 = symbol (c % 64) ++ raw_url_encode rest in
    let s2 = symbol (b % 16 * 4 + c / 64) ++ s1 in
    let s3 = symbol (a % 4 * 16 + b / 16) ++ s2 in
    let l1 = length-append (symbol (c % 64)) (raw_url_encode rest) in
    let l2 = length-append (symbol (b % 16 * 4 + c / 64)) s1 in
    let l3 = length-append (symbol (a % 4 * 16 + b / 16)) s2 in
    length-append (symbol (a / 4)) s3 ∙ omega (arith, p, q, r, s, ih, l1, l2, l3)

length-take : {A : Type 0} (n : ℕ) (xs : List A) → n ≤ length xs → length (take n xs) ≡ n
unfolding take
length-take zero xs h = refl
length-take (suc n) [] h = omega arith
length-take (suc n) (x ∷ xs) h = ap suc (length-take n xs (omega arith))

take-append :
    {A : Type 0} (n m : ℕ) (xs ys : List A)
    → n ≡ length xs + m
    → take n (xs ++ ys) ≡ xs ++ take m ys
unfolding take
take-append n m [] ys h = ap (λ k. take k ys) (omega (arith, h))
take-append zero m (x ∷ xs) ys h = absurd (omega (arith, h))
take-append (suc n) m (x ∷ xs) ys h = ap (λ l. x ∷ l) (take-append n m xs ys (omega (arith, h)))

-- What bcrypt documents: the hash of a password verifies it, and a password of at most 72 bytes is
-- hashed.
pub record BcryptLaws (b : Bcrypt) : Type 0 where
  pub verifies :
      (password hash : Str) (cost : ℕ)
      → b.generate_from_password password cost ≡ some hash
      → b.compare_hash_and_password hash password ≡ true
  pub hashes :
      (password : Str) → length password ≤ 72 → b.generate_from_password password bcrypt_cost ≢ none

length-full_key :
    (prefix : Str) (random : List ℕ)
    → All IsByte random
    → length random ≡ api_key_length
    → length (full_key prefix random) ≡ length prefix + 44
unfolding full_key
length-full_key prefix random bytes n =
    let a = length-append prefix (lit "_" ++ raw_url_encode random) in
    let b = length-append (lit "_") (raw_url_encode random) in
    let c = length-raw_url_encode random bytes ∙ ap raw_length n in
    a ∙ ap (λ m. length prefix + m) (b ∙ ap (λ m. 1 + m) c)

take-full_key :
    (prefix : Str) (random : List ℕ)
    → length prefix ≤ max_api_key_prefix_length
    → take 10 (full_key prefix random)
      ≡ prefix ++ (lit "_" ++ take (9 - length prefix) (raw_url_encode random))
unfolding full_key
take-full_key prefix random short =
    take-append 10 (suc (9 - length prefix)) prefix (lit "_" ++ raw_url_encode random)
      (omega (arith, short))
    ∙ ap (λ l. prefix ++ l)
        (take-append (suc (9 - length prefix)) (9 - length prefix) (lit "_") (raw_url_encode random)
          (omega arith))

hash_key-some :
    (b : Bcrypt) (key hash : Str)
    → b.generate_from_password key bcrypt_cost ≡ some hash
    → hash_key b key ≡ ok (record { key = key; hash = hash; display_prefix = display key })
unfolding hash_key
hash_key-some b key hash e = rw (hash_key, e) refl

-- A generation that succeeds had a prefix within the bound, and gives the hash of the full key.
generate_inv :
    (b : Bcrypt) (random : List ℕ) (prefix : Str) (k : ApiKey)
    → generate_api_key b (some random) prefix ≡ ok k
    → (length prefix ≤ max_api_key_prefix_length)
      × (k.key ≡ full_key prefix random)
      × (k.display_prefix ≡ display (full_key prefix random))
      × (b.generate_from_password (full_key prefix random) bcrypt_cost ≡ some k.hash)
unfolding generate_api_key hash_key
generate_inv b random prefix k h = by_length (ltb max_api_key_prefix_length (length prefix)) refl h
  where
    key : Str
    key = full_key prefix random

    hashed :
        (o : Option Str)
        → b.generate_from_password key bcrypt_cost ≡ o
        → (let r : Result ApiKeyError ApiKey = elim o [
          | none ↦ err not_hashed
          | some hash ↦ ok (record { key = key; hash = hash; display_prefix = display key })
        ] in
            r)
          ≡ ok k
        → (k.key ≡ key)
          × (k.display_prefix ≡ display key)
          × (b.generate_from_password key bcrypt_cost ≡ some k.hash)
    hashed none e g = cc g
    hashed (some x) e g = (
      ap (λ (z : ApiKey). z.key) (sym (ok_inj g)),
      ap (λ (z : ApiKey). z.display_prefix) (sym (ok_inj g)),
      e ∙ ap (λ (z : ApiKey). some z.hash) (ok_inj g),
    )

    by_length :
        (c : Bool)
        → ltb max_api_key_prefix_length (length prefix) ≡ c
        → (if c then err prefix_too_long else hash_key b key) ≡ ok k
        → (length prefix ≤ max_api_key_prefix_length)
          × (k.key ≡ key)
          × (k.display_prefix ≡ display key)
          × (b.generate_from_password key bcrypt_cost ≡ some k.hash)
    by_length true e g = cc g
    by_length false e g =
        let (x, y, z) = hashed (b.generate_from_password key bcrypt_cost) refl g in
        (ground (arith, e), x, y, z)

-- A generated key is within what bcrypt reads of a password, and its display prefix has ten bytes:
-- the prefix, the separator and at least two of the random characters, so that the prefixes of two
-- keys can differ. The random bytes are 32.
pub generated_bounds :
    (b : Bcrypt) (random : List ℕ) (prefix : Str) (k : ApiKey)
    → All IsByte random
    → length random ≡ api_key_length
    → generate_api_key b (some random) prefix ≡ ok k
    → (length k.key ≤ 72)
      × (length k.display_prefix ≡ display_prefix_length)
      × ((n : ℕ) × (min_prefix_random_chars ≤ n)
          × (k.display_prefix ≡ prefix ++ (lit "_" ++ take n (raw_url_encode random))))
unfolding display
generated_bounds b random prefix k bytes size h =
    let (short, key, shown, hashed) = generate_inv b random prefix k h in
    let n = length-full_key prefix random bytes size in
    let long : ltb display_prefix_length (length (full_key prefix random)) ≡ true =
      ground (arith, n) in
    let shown' =
      shown
      ∙ ap (λ c. if c then take 10 (full_key prefix random) else full_key prefix random) long in
    let key' = ap length key ∙ n in
    (
      omega (arith, key', short),
      ap length shown' ∙ length-take 10 (full_key prefix random) (omega (arith, n)),
      (9 - length prefix, omega (arith, short), shown' ∙ take-full_key prefix random short),
    )

too_long : {m n : ℕ} → m < n → ltb m n ≡ true
too_long h = ground (arith, h)

within : {m n : ℕ} → n ≤ m → ltb m n ≡ false
within h = ground (arith, h)

-- With a prefix within the bound the generation succeeds, and the key is verified by its hash; a
-- longer prefix is refused. bcrypt is as it documents itself.
pub validate-generate :
    (b : Bcrypt) (random : List ℕ) (prefix : Str)
    → BcryptLaws b
    → All IsByte random
    → length random ≡ api_key_length
    → (length prefix ≤ max_api_key_prefix_length
        → (k : ApiKey) × (generate_api_key b (some random) prefix ≡ ok k)
          × (validate_api_key b k.key k.hash ≡ true))
      × (max_api_key_prefix_length < length prefix
          → generate_api_key b (some random) prefix ≡ err prefix_too_long)
unfolding generate_api_key validate_api_key
validate-generate b random prefix laws bytes size = (
  λ short.
      hashed (b.generate_from_password key bcrypt_cost) refl
        (let n = length-full_key prefix random bytes size in omega (arith, n, short))
        (within short),
  λ long. refused (ltb max_api_key_prefix_length (length prefix)) (too_long long),
)
  where
    key : Str
    key = full_key prefix random

    refused :
        (c : Bool)
        → c ≡ true
        → (if c then err prefix_too_long else hash_key b key) ≡ err prefix_too_long
    refused true e = refl
    refused false e = cc e

    hashed :
        (o : Option Str)
        → b.generate_from_password key bcrypt_cost ≡ o
        → length key ≤ 72
        → ltb max_api_key_prefix_length (length prefix) ≡ false
        → (k : ApiKey) × (generate_api_key b (some random) prefix ≡ ok k)
          × (validate_api_key b k.key k.hash ≡ true)
    hashed none e n t = absurd (laws.hashes key n e)
    hashed (some x) e n t = (
      record { key = key; hash = x; display_prefix = display key },
      rw t (hash_key-some b key x e),
      laws.verifies key x bcrypt_cost e,
    )
