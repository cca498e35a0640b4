-- ===== src/Crypto/Tests.antt =====
-- The token cipher (identity/crypto/tokencipher.go) on concrete texts.
use terraform_suite_identity.Common.{
  ℕ, ◌≤◌, pos, Str, lit, ◌==◌, [], ◌++◌, length, true, none, some, ok, ◌≡◌, ◌⊎◌, inr, refl,
}
use terraform_suite_identity.Crypto.{
  Bytes, TokenCipher, new_token_cipher, new_token_cipher_with_previous, work_factor,
  derive_token_cipher, seal_data, seal, seal_with_context, drop, decrypt_with_key, or_previous,
  open_decoded, open_data, open_with_context, or_legacy, open_with_context_or_legacy,
  re_seal_with_context,
}
use terraform_suite_identity.Crypto.Context.{context_bound}
use terraform_suite_identity.Crypto.Reseal.{reseal_binds}
use terraform_suite_identity.Crypto.Derived.{NotPositive, derived_bounds}
use terraform_suite_identity.Auth.Tokens.Toy.{get_str}
use terraform_suite_identity.Crypto.Toy.{repeated, toy_seal, toy, toy_laws}

abbrev key1 : Bytes
key1 = repeated 32 1

abbrev key2 : Bytes
key2 = repeated 32 2

abbrev nonce1 : Bytes
nonce1 = repeated 12 7

abbrev nonce2 : Bytes
nonce2 = repeated 12 8

abbrev salt : Bytes
salt = repeated 16 3

abbrev org : Bytes
org = lit "org"

abbrev token : Bytes
token = lit "token"

-- The ciphers before a rotation, after it, and when the first key is dropped.
abbrev before : TokenCipher
before = record { master_key = key1; previous_key = none }

abbrev after : TokenCipher
after = record { master_key = key2; previous_key = some key1 }

abbrev derived : TokenCipher
derived = record { master_key = repeated 32 4; previous_key = none }

abbrev alone : TokenCipher
alone = record { master_key = key2; previous_key = none }

context_bound_example : (org ≡ org) × (true ≡ true) × (token ≡ token)
unfolding seal_with_context seal_data open_with_context_or_legacy open_data open_decoded or_legacy
    or_previous decrypt_with_key drop get_str ◌==◌
context_bound_example =
    context_bound toy toy_laws before after nonce1 token org org token
      (nonce1 ++ toy_seal key1 nonce1 token org) true refl (λ e. cc e) refl refl

reseal_binds_example :
    (ct' : Str) × (re_seal_with_context toy
        (some nonce2)
        after
        (nonce1 ++ toy_seal key1 nonce1 token [])
        org
      ≡ ok ct')
    × (open_with_context toy alone ct' org ≡ ok token)
unfolding new_token_cipher_with_previous seal seal_data ◌==◌
reseal_binds_example =
    reseal_binds toy toy_laws key1 [] key2 key1 nonce1 nonce2 token org before after alone
      (nonce1 ++ toy_seal key1 nonce1 token []) refl refl refl refl refl (inr refl) refl

derived_bounds_example :
    (n : ℕ) × (16 ≤ length salt)
    × (600000 ≤ n)
    × ((pos 700000 ≡ pos n) ⊎ ((n ≡ 600000) × NotPositive (pos 700000)))
    × (derived.master_key ≡ toy.pbkdf2 (lit "pass") salt n)
    × (length derived.master_key ≡ 32)
    × (derived.previous_key ≡ none)
unfolding derive_token_cipher work_factor new_token_cipher
derived_bounds_example = derived_bounds toy (lit "pass") salt (pos 700000) derived refl
