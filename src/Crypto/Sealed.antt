-- ===== src/Crypto/Sealed.antt =====
-- What opens a sealed text (identity/crypto/tokencipher.go), with GCM and base64 as they document
-- themselves and authentication taken as exact.
use terraform_suite_identity.Common.{
  ℕ, zero, suc, Str, ◌==◌, eq_iff, ltb, [], ◌∷◌, ◌++◌, length, length-append, take, Bool, true,
  false, Option, none, some, some_inj, if◌then◌else◌, Bool-cases, Result, ok, err, ok_inj, ◌≡◌, ◌≢◌,
  ◌⊎◌, inl, inr, refl, sym, ap, subst, ◌∙◌, arith,
}
use terraform_suite_identity.Crypto.{
  Bytes, Library, CipherError, key_length_invalid, ciphertext_corrupted, decryption_failed,
  salt_too_short, iterations_too_low, no_random_bytes, cipher_unusable, TokenCipher, usable,
  or_failed, seal_data, drop, opened, decrypt_with_key, or_previous, open_decoded, open_data,
}

pub record LibraryLaws (lib : Library) : Type 0 where
  pub nonce_of_12 : lib.nonce_size ≡ 12
  pub opens :
      (key nonce plaintext data' : Bytes)
      → lib.gcm_open key nonce (lib.gcm_seal key nonce plaintext data') data' ≡ some plaintext
  -- Only the key and the additional data of the sealing authenticate.
  pub authentic :
      (key key' nonce plaintext data' data'' other : Bytes)
      → lib.gcm_open key' nonce (lib.gcm_seal key nonce plaintext data') data'' ≡ some other
      → (key' ≡ key) × (data'' ≡ data')
  pub decodes : (bs : Bytes) → lib.decode (lib.encode bs) ≡ some bs
  pub not_empty : (b : ℕ) (bs : Bytes) → lib.encode (b ∷ bs) ≢ []

take-whole : (n : ℕ) (xs ys : Bytes) → length xs ≡ n → take n (xs ++ ys) ≡ xs
unfolding take
take-whole zero [] ys h = refl
take-whole zero (x ∷ xs) ys h = absurd (omega (arith, h))
take-whole (suc n) [] ys h = absurd (omega (arith, h))
take-whole (suc n) (x ∷ xs) ys h = ap (λ l. x ∷ l) (take-whole n xs ys (omega (arith, h)))

drop-whole : (n : ℕ) (xs ys : Bytes) → length xs ≡ n → drop n (xs ++ ys) ≡ ys
unfolding drop
drop-whole zero [] ys h = refl
drop-whole zero (x ∷ xs) ys h = absurd (omega (arith, h))
drop-whole (suc n) [] ys h = absurd (omega (arith, h))
drop-whole (suc n) (x ∷ xs) ys h = drop-whole n xs ys (omega (arith, h))

module _ (lib : Library) (laws : LibraryLaws lib) where
  pub decrypt_lem :
      (key nonce sealed data' : Bytes)
      → usable key ≡ true
      → length nonce ≡ lib.nonce_size
      → decrypt_with_key lib key (nonce ++ sealed) data'
        ≡ opened (lib.gcm_open key nonce sealed data')
  unfolding decrypt_with_key
  decrypt_lem key nonce sealed data' u n =
      let long : ltb (length (nonce ++ sealed)) lib.nonce_size ≡ false =
        let l = length-append nonce sealed in ground (arith, l, n) in
      rw (u, long)
        (ap (λ x. opened (lib.gcm_open key x (drop lib.nonce_size (nonce ++ sealed)) data'))
            (take-whole lib.nonce_size nonce sealed n)
          ∙ ap (λ x. opened (lib.gcm_open key nonce x data'))
              (drop-whole lib.nonce_size nonce sealed n))

  -- An unusable key opens nothing.
  decrypt_unusable :
      (key ciphertext data' : Bytes)
      → usable key ≡ false
      → decrypt_with_key lib key ciphertext data' ≡ err cipher_unusable
  unfolding decrypt_with_key
  decrypt_unusable key ciphertext data' u = rw u refl

  module _ (key nonce plaintext context : Bytes) (sized : length nonce ≡ lib.nonce_size) where
    -- What any key makes of the sealed text.
    pub decrypt-ok :
        (key' context' q : Bytes)
        → decrypt_with_key lib key' (nonce ++ lib.gcm_seal key nonce plaintext context) context'
          ≡ ok q
        → (context' ≡ context) × (q ≡ plaintext)
    decrypt-ok key' context' q h = elim (Bool-cases (usable key')) [
      | inr u ↦
          cc (
            decrypt_unusable key' (nonce ++ lib.gcm_seal key nonce plaintext context) context' u,
            h,
          )
      | inl u ↦
          by_answer (lib.gcm_open key' nonce (lib.gcm_seal key nonce plaintext context) context')
            refl
            (sym
                (decrypt_lem key' nonce (lib.gcm_seal key nonce plaintext context) context' u sized)
              ∙ h)
    ]
      where
        by_answer :
            (o : Option Bytes)
            → lib.gcm_open key' nonce (lib.gcm_seal key nonce plaintext context) context' ≡ o
            → opened o ≡ ok q
            → (context' ≡ context) × (q ≡ plaintext)
        by_answer none e g = cc g
        by_answer (some x) e g =
            let (same_key, same) = laws.authentic key key' nonce plaintext context context' x e in
            let back = laws.opens key nonce plaintext context in
            let e' =
              subst
                (λ k.
                  lib.gcm_open k nonce (lib.gcm_seal key nonce plaintext context) context' ≡ some x)
                same_key e in
            let e'' =
              subst
                (λ c. lib.gcm_open key nonce (lib.gcm_seal key nonce plaintext context) c ≡ some x)
                same e' in
            (same, sym (ok_inj g) ∙ sym (some_inj plaintext x (sym back ∙ e'')))

    or_previous-ok :
        (previous : Option Bytes) (first : Result CipherError Bytes) (context' q : Bytes)
        → or_previous previous
            (λ k.
              decrypt_with_key lib k (nonce ++ lib.gcm_seal key nonce plaintext context) context')
            first
          ≡ ok q
        → (first ≡ ok q)
          ⊎ ((k : Bytes) × (decrypt_with_key lib k
                  (nonce ++ lib.gcm_seal key nonce plaintext context)
                  context'
                ≡ ok q))
    unfolding or_previous
    or_previous-ok previous (ok x) context' q h = inl h
    or_previous-ok none (err e) context' q h = cc h
    or_previous-ok (some k) (err key_length_invalid) context' q h = cc h
    or_previous-ok (some k) (err ciphertext_corrupted) context' q h = cc h
    or_previous-ok (some k) (err salt_too_short) context' q h = cc h
    or_previous-ok (some k) (err iterations_too_low) context' q h = cc h
    or_previous-ok (some k) (err no_random_bytes) context' q h = cc h
    or_previous-ok (some k) (err cipher_unusable) context' q h = cc h
    or_previous-ok (some k) (err decryption_failed) context' q h =
        by_result
          (decrypt_with_key lib k (nonce ++ lib.gcm_seal key nonce plaintext context) context') refl
          h
      where
        by_result :
            (r : Result CipherError Bytes)
            → decrypt_with_key lib k (nonce ++ lib.gcm_seal key nonce plaintext context) context'
              ≡ r
            → or_failed r ≡ ok q
            → (err decryption_failed ≡ ok q)
              ⊎ ((k' : Bytes) × (decrypt_with_key lib k'
                      (nonce ++ lib.gcm_seal key nonce plaintext context)
                      context'
                    ≡ ok q))
        by_result (ok x) e g = inr (k, e ∙ g)
        by_result (err f) e g = cc g

    -- A sealed text that any cipher opens was sealed under the context it is opened with.
    pub open_data-ok :
        (tc : TokenCipher) (context' q : Bytes)
        → open_data lib tc (lib.encode (nonce ++ lib.gcm_seal key nonce plaintext context)) context'
          ≡ ok q
        → (context' ≡ context) × (q ≡ plaintext)
    unfolding open_data open_decoded
    open_data-ok tc context' q h =
        elim (or_previous-ok tc.previous_key
          (decrypt_with_key lib tc.master_key (nonce ++ lib.gcm_seal key nonce plaintext context)
            context')
          context' q (sym (ap (open_decoded lib tc context') (laws.decodes _)) ∙ h)) [
            | inl first ↦ decrypt-ok tc.master_key context' q first
            | inr (k, second) ↦ decrypt-ok k context' q second
          ]

  -- A text that was sealed is not empty.
  pub encoded-full :
      (nonce sealed : Bytes)
      → length nonce ≡ lib.nonce_size
      → (lib.encode (nonce ++ sealed) == []) ≡ false
  encoded-full [] sealed n = let size = laws.nonce_of_12 in absurd (omega (arith, n, size))
  encoded-full (b ∷ bs) sealed n =
      let e = eq_iff (lib.encode (b ∷ (bs ++ sealed))) [] in
      let full = laws.not_empty b (bs ++ sealed) in ground (arith, e, full)

  -- A sealed text, written out.
  pub seal_data-ok :
      (tc : TokenCipher) (nonce plaintext context : Bytes) (ct : Str)
      → seal_data lib (some nonce) tc plaintext context ≡ ok ct
      → ct ≡ lib.encode (nonce ++ lib.gcm_seal tc.master_key nonce plaintext context)
  unfolding seal_data
  seal_data-ok tc nonce plaintext context ct h =
      branch-ok (usable tc.master_key)
        (lib.encode (nonce ++ lib.gcm_seal tc.master_key nonce plaintext context)) h
    where
      branch-ok :
          (b : Bool) (sealed : Str)
          → (if b then ok sealed else err cipher_unusable) ≡ ok ct
          → ct ≡ sealed
      branch-ok true sealed g = sym (ok_inj g)
      branch-ok false sealed g = cc g
