-- ===== src/Crypto/Rotation.antt =====
-- Sealed texts over a change of the key (identity/crypto/tokencipher.go).
use terraform_suite_identity.Common.{
  Str, nat_eq, ◌++◌, length, Bool, true, false, not, ◌&&◌, Option, none, some, if◌then◌else◌,
  Result, ok, err, ok_inj, ◌≡◌, ◌⊎◌, inl, inr, refl, sym, ap, subst, ◌∙◌, arith,
}
use terraform_suite_identity.Crypto.{
  Bytes, Library, CipherError, key_length_invalid, ciphertext_corrupted, decryption_failed,
  TokenCipher, new_token_cipher_with_previous, usable, seal_with_context, opened, decrypt_with_key,
  or_previous, open_decoded, open_data, open_with_context,
}
use terraform_suite_identity.Crypto.Sealed.{
  LibraryLaws, decrypt_lem, decrypt-ok, encoded-full, seal_data-ok,
}

-- The ciphers that hold a key, as the current one or as the previous one.
pub Reads : TokenCipher → Bytes → Type 0
Reads tc key = (tc.master_key ≡ key) ⊎ (tc.previous_key ≡ some key)

pub of_32-usable : (key : Bytes) → length key ≡ 32 → usable key ≡ true
of_32-usable key n = ground (arith, n)

-- What the constructor makes of two keys.
pub made :
    (current previous : Bytes) (tc : TokenCipher)
    → new_token_cipher_with_previous current previous ≡ ok tc
    → (length current ≡ 32)
      × (tc.master_key ≡ current)
      × (length previous ≡ 32 → tc.previous_key ≡ some previous)
unfolding new_token_cipher_with_previous
made current previous tc h =
    let (a, m, p) =
      by_tests (nat_eq (length current) 32) (nat_eq (length previous) 0)
        (nat_eq (length previous) 32) h in
    (ground (arith, a), m, λ n. p (ground (arith, n)))
  where
    by_tests :
        (a z b : Bool)
        → (if not a
            then err key_length_invalid
            else if not z && not b
            then err key_length_invalid
            else ok
                (record { master_key = current; previous_key = if b then some previous else none }))
          ≡ ok tc
        → (a ≡ true) × (tc.master_key ≡ current) × (b ≡ true → tc.previous_key ≡ some previous)
    by_tests false z b g = cc g
    by_tests true false false g = cc g
    by_tests true true false g = (refl, sym (ap (λ c. c.master_key) (ok_inj g)), λ f. absurd (cc f))
    by_tests true true true g = (
      refl,
      sym (ap (λ c. c.master_key) (ok_inj g)),
      λ f. sym (ap (λ c. c.previous_key) (ok_inj g)),
    )
    by_tests true false true g = (
      refl,
      sym (ap (λ c. c.master_key) (ok_inj g)),
      λ f. sym (ap (λ c. c.previous_key) (ok_inj g)),
    )

-- A key that the constructor is given is held.
pub held-Reads :
    (key current previous : Bytes) (tc : TokenCipher)
    → length key ≡ 32
    → new_token_cipher_with_previous current previous ≡ ok tc
    → (current ≡ key) ⊎ (previous ≡ key)
    → Reads tc key
unfolding Reads
held-Reads key current previous tc n m (inl e) = inl ((made current previous tc m).1 ∙ e)
held-Reads key current previous tc n m (inr e) =
    inr ((made current previous tc m).2 (ap length e ∙ n) ∙ ap some e)

module _ (lib : Library) (laws : LibraryLaws lib) where
  pub own_key_opens :
      (key nonce plaintext context : Bytes)
      → length nonce ≡ lib.nonce_size
      → usable key ≡ true
      → decrypt_with_key lib key (nonce ++ lib.gcm_seal key nonce plaintext context) context
        ≡ ok plaintext
  own_key_opens key nonce plaintext context sized u =
      decrypt_lem lib laws key nonce (lib.gcm_seal key nonce plaintext context) context u sized
      ∙ ap opened (laws.opens key nonce plaintext context)

  -- A usable key opens the text, or its answer is that it does not authenticate.
  other_key :
      (key key' nonce plaintext context : Bytes)
      → length nonce ≡ lib.nonce_size
      → usable key' ≡ true
      → (decrypt_with_key lib key' (nonce ++ lib.gcm_seal key nonce plaintext context) context
          ≡ ok plaintext)
        ⊎ (decrypt_with_key lib key' (nonce ++ lib.gcm_seal key nonce plaintext context) context
            ≡ err decryption_failed)
  other_key key key' nonce plaintext context sized u =
      by_answer (lib.gcm_open key' nonce (lib.gcm_seal key nonce plaintext context) context)
        (decrypt_lem lib laws key' nonce (lib.gcm_seal key nonce plaintext context) context u sized)
    where
      by_answer :
          (o : Option Bytes)
          → decrypt_with_key lib key' (nonce ++ lib.gcm_seal key nonce plaintext context) context
            ≡ opened o
          → (decrypt_with_key lib key' (nonce ++ lib.gcm_seal key nonce plaintext context) context
              ≡ ok plaintext)
            ⊎ (decrypt_with_key lib key' (nonce ++ lib.gcm_seal key nonce plaintext context) context
                ≡ err decryption_failed)
      by_answer none e = inr e
      by_answer (some x) e =
          let (same, plain) =
            decrypt-ok lib laws key nonce plaintext context sized key' context x e in
          inl (e ∙ ap ok plain)

  first_opens :
      (previous : Option Bytes) (plaintext : Bytes) (decrypt : Bytes → Result CipherError Bytes)
      (first : Result CipherError Bytes)
      → first ≡ ok plaintext
      → or_previous previous decrypt first ≡ ok plaintext
  unfolding or_previous
  first_opens previous plaintext decrypt first f = rw (f) refl

  fallback :
      (previous : Option Bytes) (key plaintext : Bytes) (decrypt : Bytes → Result CipherError Bytes)
      (first : Result CipherError Bytes)
      → previous ≡ some key
      → decrypt key ≡ ok plaintext
      → (first ≡ ok plaintext) ⊎ (first ≡ err decryption_failed)
      → or_previous previous decrypt first ≡ ok plaintext
  unfolding or_previous
  fallback previous key plaintext decrypt first p d (inl f) = rw (f) refl
  fallback previous key plaintext decrypt first p d (inr f) = rw (f, p) (rw (d) refl)

  pub open_data-seal :
      (tc : TokenCipher) (key nonce plaintext context : Bytes)
      → length nonce ≡ lib.nonce_size
      → usable key ≡ true
      → usable tc.master_key ≡ true
      → Reads tc key
      → open_data lib tc (lib.encode (nonce ++ lib.gcm_seal key nonce plaintext context)) context
        ≡ ok plaintext
  unfolding open_data open_decoded Reads
  open_data-seal tc key nonce plaintext context sized u u' reads =
      ap (open_decoded lib tc context)
        (laws.decodes (nonce ++ lib.gcm_seal key nonce plaintext context))
      ∙ by_key reads
    where
      first : Result CipherError Bytes
      first =
          decrypt_with_key lib tc.master_key (nonce ++ lib.gcm_seal key nonce plaintext context)
            context

      own :
          decrypt_with_key lib key (nonce ++ lib.gcm_seal key nonce plaintext context) context
          ≡ ok plaintext
      own = own_key_opens key nonce plaintext context sized u

      by_key :
          Reads tc key
          → or_previous tc.previous_key
              (λ k.
                decrypt_with_key lib k (nonce ++ lib.gcm_seal key nonce plaintext context) context)
              first
            ≡ ok plaintext
      by_key (inl m) =
          first_opens tc.previous_key plaintext
            (λ k.
              decrypt_with_key lib k (nonce ++ lib.gcm_seal key nonce plaintext context) context)
            first
            (ap
                (λ k.
                  decrypt_with_key lib k (nonce ++ lib.gcm_seal key nonce plaintext context)
                    context)
                m
              ∙ own)
      by_key (inr p) =
          fallback tc.previous_key key plaintext
            (λ k.
              decrypt_with_key lib k (nonce ++ lib.gcm_seal key nonce plaintext context) context)
            first p own (other_key key tc.master_key nonce plaintext context sized u')

  -- A text that one cipher seals under a context is opened under it, to the same plaintext, by each
  -- cipher that has the sealing key as its current key or, after a rotation, as its previous one.
  pub rotation_opens :
      (key older key' previous nonce plaintext context : Bytes) (tc tc' : TokenCipher) (ct : Str)
      → length nonce ≡ lib.nonce_size
      → new_token_cipher_with_previous key older ≡ ok tc
      → new_token_cipher_with_previous key' previous ≡ ok tc'
      → (key' ≡ key) ⊎ (previous ≡ key)
      → seal_with_context lib (some nonce) tc plaintext context ≡ ok ct
      → open_with_context lib tc' ct context ≡ ok plaintext
  unfolding open_with_context seal_with_context
  rotation_opens key older key' previous nonce plaintext context tc tc' ct sized m m' held s =
      let (n, k, _) = made key older tc m in
      let (n', k', _) = made key' previous tc' m' in
      let read = held-Reads key key' previous tc' n m' held in
      let text = lib.encode (nonce ++ lib.gcm_seal key nonce plaintext context) in
      let written : ct ≡ text =
        seal_data-ok lib laws tc nonce plaintext context ct s
        ∙ ap (λ x. lib.encode (nonce ++ lib.gcm_seal x nonce plaintext context)) k in
      subst (λ t. open_with_context lib tc' t context ≡ ok plaintext) (sym written)
        (ap (λ b. if b then err ciphertext_corrupted else open_data lib tc' text context)
            (encoded-full lib laws nonce (lib.gcm_seal key nonce plaintext context) sized)
          ∙ open_data-seal tc' key nonce plaintext context sized (of_32-usable key n)
              (ap usable k' ∙ of_32-usable key' n') read)
