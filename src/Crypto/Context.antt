-- ===== src/Crypto/Context.antt =====
-- The context of a sealed text (identity/crypto/tokencipher.go).
use terraform_suite_identity.Common.{
  Str, ◌==◌, [], ◌++◌, length, Bool, true, false, some, if◌then◌else◌, Result, ok, err, ok_inj, ◌≡◌,
  ◌≢◌, ◌⊎◌, inl, inr, sym, ap, subst, ◌∙◌,
}
use terraform_suite_identity.Crypto.{
  Bytes, Library, CipherError, TokenCipher, seal_with_context, open_data, or_legacy,
  open_with_context_or_legacy,
}
use terraform_suite_identity.Crypto.Sealed.{LibraryLaws, encoded-full, seal_data-ok, open_data-ok}

or_legacy-ok :
    (r legacy : Result CipherError Bytes) (q : Bytes) (bound : Bool)
    → or_legacy r legacy ≡ ok (q, bound)
    → ((r ≡ ok q) × (bound ≡ true)) ⊎ ((legacy ≡ ok q) × (bound ≡ false))
unfolding or_legacy
or_legacy-ok (ok x) legacy q bound h =
    let e = ok_inj h in inl (ap ok (ap (λ p. p.0) e), sym (ap (λ p. p.1) e))
or_legacy-ok (err e) (ok x) q bound h =
    let e' = ok_inj h in inr (ap ok (ap (λ p. p.0) e'), sym (ap (λ p. p.1) e'))
or_legacy-ok (err e) (err f) q bound h = cc h

module _ (lib : Library) (laws : LibraryLaws lib) where
  -- A text that is sealed under a nonempty context is opened, under keys of any cipher, only under
  -- the same context and to the same plaintext, also where the texts of older rows are let in, and
  -- is then said to be bound.
  pub context_bound :
      (tc tc' : TokenCipher) (nonce plaintext context context' q : Bytes) (ct : Str) (bound : Bool)
      → length nonce ≡ lib.nonce_size
      → context ≢ []
      → seal_with_context lib (some nonce) tc plaintext context ≡ ok ct
      → open_with_context_or_legacy lib tc' ct context' ≡ ok (q, bound)
      → (context' ≡ context) × (bound ≡ true) × (q ≡ plaintext)
  unfolding open_with_context_or_legacy seal_with_context
  context_bound tc tc' nonce plaintext context context' q ct bound sized c s h =
      elim (or_legacy-ok (open_data lib tc' text context') (open_data lib tc' text []) q bound
        opened_text) [
          | inl (first, b) ↦
              let (same, plain) =
                open_data-ok lib laws tc.master_key nonce plaintext context sized tc' context' q
                  first in
              (same, b, plain)
          | inr (second, b) ↦ absurd (
              c (
                sym
                  (open_data-ok lib laws tc.master_key nonce plaintext context sized tc' [] q
                    second).0))
        ]
    where
      text : Str
      text = lib.encode (nonce ++ lib.gcm_seal tc.master_key nonce plaintext context)

      written : ct ≡ text
      written = seal_data-ok lib laws tc nonce plaintext context ct s

      full : (text == []) ≡ false
      full = encoded-full lib laws nonce (lib.gcm_seal tc.master_key nonce plaintext context) sized

      opened_text :
          or_legacy (open_data lib tc' text context') (open_data lib tc' text []) ≡ ok (q, bound)
      opened_text =
          sym (
            ap
              (λ b.
                if b
                then ok ([], false)
                else or_legacy (open_data lib tc' text context') (open_data lib tc' text []))
              full)
          ∙ subst (λ t. open_with_context_or_legacy lib tc' t context' ≡ ok (q, bound)) written h
