-- ===== src/Crypto/Derived.antt =====
-- The bounds on a derived key (identity/crypto/tokencipher.go).
use terraform_suite_identity.Common.{
  ℕ, zero, suc, ◌≤◌, ℤ, pos, negsuc, nat_eq, ltb, length, Bool, true, false, not, Option, none,
  some, if◌then◌else◌, Result, ok, err, ok_inj, ◌≡◌, ◌≢◌, ◌⊎◌, inl, inr, refl, sym, ap, ◌∙◌, arith,
}
use terraform_suite_identity.Crypto.{
  Bytes, Library, CipherError, no_random_bytes, generate_key, generate_salt, salt_length,
  key_length_invalid, salt_too_short, iterations_too_low, TokenCipher, new_token_cipher,
  work_factor, derive_token_cipher,
}

abbrev pub NotPositive : ℤ → Type 0
NotPositive i = (i ≡ pos 0) ⊎ ((k : ℕ) × (i ≡ negsuc k))

work_factor-cases : (i : ℤ) → (i ≡ pos (work_factor i)) ⊎ ((work_factor i ≡ 600000) × NotPositive i)
unfolding work_factor
work_factor-cases (pos zero) = inr (refl, inl refl)
work_factor-cases (pos (suc n)) = inl refl
work_factor-cases (negsuc n) = inr (refl, inr (n, refl))

single :
    (key : Bytes) (tc : TokenCipher)
    → new_token_cipher key ≡ ok tc
    → (length key ≡ 32) × (tc.master_key ≡ key) × (tc.previous_key ≡ none)
unfolding new_token_cipher
single key tc h = let (n, m, p) = by_test (nat_eq (length key) 32) h in (ground (arith, n), m, p)
  where
    by_test :
        (b : Bool)
        → (if not b
            then err key_length_invalid
            else ok (record { master_key = key; previous_key = none }))
          ≡ ok tc
        → (b ≡ true) × (tc.master_key ≡ key) × (tc.previous_key ≡ none)
    by_test false g = cc g
    by_test true g =
        (refl, sym (ap (λ c. c.master_key) (ok_inj g)), sym (ap (λ c. c.previous_key) (ok_inj g)))

-- A cipher is derived only with a salt of at least 16 bytes and at least 600000 iterations, at the
-- count that was asked for where that is positive and at the default of 600000 otherwise, and its
-- one key is the derived one, of 32 bytes.
pub derived_bounds :
    (lib : Library) (passphrase salt : Bytes) (iterations : ℤ) (tc : TokenCipher)
    → derive_token_cipher lib passphrase salt iterations ≡ ok tc
    → (n : ℕ) × (16 ≤ length salt)
      × (600000 ≤ n)
      × ((iterations ≡ pos n) ⊎ ((n ≡ 600000) × NotPositive iterations))
      × (tc.master_key ≡ lib.pbkdf2 passphrase salt n)
      × (length tc.master_key ≡ 32)
      × (tc.previous_key ≡ none)
unfolding derive_token_cipher
derived_bounds lib passphrase salt iterations tc h =
    let (s, w, c) =
      by_tests (ltb (length salt) 16) (ltb (work_factor iterations) 600000)
        (lib.pbkdf2 passphrase salt (work_factor iterations)) h in
    let (l, m, p) = single (lib.pbkdf2 passphrase salt (work_factor iterations)) tc c in
    (
      work_factor iterations,
      ground (arith, s),
      ground (arith, w),
      work_factor-cases iterations,
      m,
      ap length m ∙ l,
      p,
    )
  where
    by_tests :
        (s w : Bool) (key : Bytes)
        → (if s
            then err salt_too_short
            else if w
            then err iterations_too_low
            else new_token_cipher key)
          ≡ ok tc
        → (s ≡ false) × (w ≡ false) × (new_token_cipher key ≡ ok tc)
    by_tests true w key g = cc g
    by_tests false true key g = cc g
    by_tests false false key g = (refl, refl, g)

salt_length-le : (length : ℤ) → 16 ≤ salt_length length
unfolding salt_length
salt_length-le (pos n) = ground arith
salt_length-le (negsuc n) = omega arith

-- A generated key makes a cipher, and a generated salt is never refused as too short, whatever length
-- was asked for; `random` gives as many bytes as it is asked for.
generated_accepted :
    (lib : Library) (random : ℕ → Option Bytes) (asked : ℤ) (key salt passphrase : Bytes)
    (iterations : ℤ)
    → ((n : ℕ) (bytes : Bytes) → random n ≡ some bytes → length bytes ≡ n)
    → generate_key random ≡ ok key
    → generate_salt random asked ≡ ok salt
    → (new_token_cipher key ≡ ok (record { master_key = key; previous_key = none }))
      × (derive_token_cipher lib passphrase salt iterations ≢ err salt_too_short)
unfolding generate_key generate_salt new_token_cipher derive_token_cipher
generated_accepted lib random asked key salt passphrase iterations fills k s =
    let full = fills 32 key (given (random 32) key k) in
    let long = fills (salt_length asked) salt (given (random (salt_length asked)) salt s) in
    (
      ground (arith, full),
      enough (ltb (length salt) 16) (ltb (work_factor iterations) 600000) _
          (ground (arith, long, salt_length-le asked)),
    )
  where
    given :
        (r : Option Bytes) (b : Bytes)
        → elim r as (λ r. Result CipherError Bytes) [ none ↦ err no_random_bytes | some x ↦ ok x ]
          ≡ ok b
        → r ≡ some b
    given none b h = cc h
    given (some x) b h = ap some (ok_inj h)

    enough :
        (short few : Bool) (key : Bytes)
        → short ≡ false
        → (if short
            then err salt_too_short
            else if few
            then err iterations_too_low
            else new_token_cipher key)
          ≢ err salt_too_short
    enough short few key h = ground (arith, h)
