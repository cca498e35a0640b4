-- ===== src/Crypto/Reseal.antt =====
-- The texts without a context, sealed again (identity/crypto/tokencipher.go).
use terraform_suite_identity.Common.{
  Str, ◌==◌, [], ◌∷◌, ◌++◌, length, true, some, if◌then◌else◌, ok, ok_inj, ◌≡◌, ◌>>=◌, ◌⊎◌, inl,
  refl, sym, ap, subst, ◌∙◌,
}
use terraform_suite_identity.Crypto.{
  Bytes, Library, TokenCipher, new_token_cipher_with_previous, usable, seal_data, seal,
  seal_with_context, open_data, open_plain, open_with_context, re_seal_with_context,
}
use terraform_suite_identity.Crypto.Sealed.{LibraryLaws, encoded-full, seal_data-ok}
use terraform_suite_identity.Crypto.Rotation.{
  Reads, of_32-usable, made, held-Reads, open_data-seal, rotation_opens,
}

module _ (lib : Library) (laws : LibraryLaws lib) where
  -- Sealing with a usable key and a nonce succeeds.
  seal_with_context-written :
      (tc : TokenCipher) (nonce plaintext context : Bytes)
      → usable tc.master_key ≡ true
      → seal_with_context lib (some nonce) tc plaintext context
        ≡ ok (lib.encode (nonce ++ lib.gcm_seal tc.master_key nonce plaintext context))
  unfolding seal_with_context seal_data
  seal_with_context-written tc nonce plaintext context u = rw (u) refl

  -- The unbound text of a key that the cipher holds is read.
  open_plain-seal :
      (key older nonce plaintext : Bytes) (tc tc' : TokenCipher) (ct : Str)
      → length nonce ≡ lib.nonce_size
      → new_token_cipher_with_previous key older ≡ ok tc
      → usable tc'.master_key ≡ true
      → Reads tc' key
      → seal lib (some nonce) tc plaintext ≡ ok ct
      → open_plain lib tc' ct ≡ ok plaintext
  unfolding open_plain seal ◌==◌
  open_plain-seal key older nonce [] tc tc' ct sized m u' read s =
      subst (λ t. open_plain lib tc' t ≡ ok []) (ok_inj s) refl
  open_plain-seal key older nonce (b ∷ bs) tc tc' ct sized m u' read s =
      let (n, k, _) = made key older tc m in
      let text = lib.encode (nonce ++ lib.gcm_seal key nonce (b ∷ bs) []) in
      let written : ct ≡ text =
        seal_data-ok lib laws tc nonce (b ∷ bs) [] ct s
        ∙ ap (λ x. lib.encode (nonce ++ lib.gcm_seal x nonce (b ∷ bs) [])) k in
      subst (λ t. open_plain lib tc' t ≡ ok (b ∷ bs)) (sym written)
        (ap (λ e. if e then ok [] else open_data lib tc' text [])
            (encoded-full lib laws nonce (lib.gcm_seal key nonce (b ∷ bs) []) sized)
          ∙ open_data-seal lib laws tc' key nonce (b ∷ bs) [] sized (of_32-usable key n) u' read)

  -- A text that was sealed without a context, under a key that a cipher holds as its current or as
  -- its previous one, is sealed again by it under a context, and the new text opens under that
  -- context, with the current key alone, to the same plaintext.
  pub reseal_binds :
      (key older key' previous nonce nonce' plaintext context : Bytes) (tc tc' alone : TokenCipher)
      (ct : Str)
      → length nonce ≡ lib.nonce_size
      → length nonce' ≡ lib.nonce_size
      → new_token_cipher_with_previous key older ≡ ok tc
      → new_token_cipher_with_previous key' previous ≡ ok tc'
      → new_token_cipher_with_previous key' [] ≡ ok alone
      → (key' ≡ key) ⊎ (previous ≡ key)
      → seal lib (some nonce) tc plaintext ≡ ok ct
      → (ct' : Str) × (re_seal_with_context lib (some nonce') tc' ct context ≡ ok ct')
        × (open_with_context lib alone ct' context ≡ ok plaintext)
  unfolding re_seal_with_context
  reseal_binds key older key' previous nonce nonce' plaintext context tc tc' alone ct sized sized' m
        m' ma held s =
      let (n, _, _) = made key older tc m in
      let (n', k', _) = made key' previous tc' m' in
      let u' : usable tc'.master_key ≡ true = ap usable k' ∙ of_32-usable key' n' in
      let read = held-Reads key key' previous tc' n m' held in
      let again = seal_with_context-written tc' nonce' plaintext context u' in
      (
        lib.encode (nonce' ++ lib.gcm_seal tc'.master_key nonce' plaintext context),
        ap (λ r. r >>= (λ p. seal_with_context lib (some nonce') tc' p context))
              (open_plain-seal key older nonce plaintext tc tc' ct sized m u' read s)
            ∙ again,
        rotation_opens lib laws key' previous key' [] nonce' plaintext context tc' alone
            (lib.encode (nonce' ++ lib.gcm_seal tc'.master_key nonce' plaintext context)) sized' m'
            ma (inl refl) again,
      )
