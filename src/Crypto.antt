-- ===== src/Crypto.antt =====
-- identity/crypto/tokencipher.go. AES-GCM, PBKDF2 and base64 are given, and so are the random bytes.
-- Texts are lists of bytes; the nil additional data is the empty one, as GCM reads it.
pub mod Sealed
pub mod Context
pub mod Rotation
pub mod Reseal
pub mod Derived
pub mod Toy
mod Tests
use terraform_suite_identity.Common.{
  ℕ, zero, suc, ◌+◌, ℤ, pos, negsuc, Str, ◌==◌, nat_eq, leb, ltb, List, [], ◌∷◌, ◌++◌, length, take,
  Bool, true, false, not, ◌&&◌, ◌||◌, Option, none, some, if◌then◌else◌, Result, ok, err, ◌>>=◌,
  ◌>>◌, require,
}

abbrev pub Bytes : Type 0
Bytes = List ℕ

-- `aead.Seal` and `aead.Open` by key, nonce and additional data, the size of a nonce, base64 in its
-- URL form, and the derivation of a key.
pub record Library : Type 0 where
  pub nonce_size : ℕ
  pub gcm_seal : Bytes → Bytes → Bytes → Bytes → Bytes
  pub gcm_open : Bytes → Bytes → Bytes → Bytes → Option Bytes
  pub encode : Bytes → Str
  pub decode : Str → Option Bytes
  pub pbkdf2 : Bytes → Bytes → ℕ → Bytes

pub data CipherError : Type 0 where
  key_length_invalid ciphertext_corrupted decryption_failed salt_too_short : CipherError
  iterations_too_low no_random_bytes cipher_unusable : CipherError

pub record TokenCipher : Type 0 where
  pub master_key : Bytes
  pub previous_key : Option Bytes

unfoldable pub new_token_cipher : Bytes → Result CipherError TokenCipher
new_token_cipher master_key =
    if not (nat_eq (length master_key) 32)
    then err key_length_invalid
    else ok (record { master_key = master_key; previous_key = none })

unfoldable pub new_token_cipher_with_previous : Bytes → Bytes → Result CipherError TokenCipher
new_token_cipher_with_previous current previous =
    if not (nat_eq (length current) 32)
    then err key_length_invalid
    else if not (nat_eq (length previous) 0) && not (nat_eq (length previous) 32)
    then err key_length_invalid
    else ok (record {
      master_key = current;
      previous_key = if nat_eq (length previous) 32 then some previous else none;
    })

abbrev pub min_pbkdf2_iterations : ℕ
min_pbkdf2_iterations = 600000

abbrev pub default_pbkdf2_iterations : ℕ
default_pbkdf2_iterations = 600000

-- `if iterations <= 0 { iterations = DefaultPBKDF2Iterations }`
unfoldable pub work_factor : ℤ → ℕ
work_factor (pos zero) = default_pbkdf2_iterations
work_factor (pos (suc n)) = suc n
work_factor (negsuc n) = default_pbkdf2_iterations

unfoldable pub derive_token_cipher : Library → Bytes → Bytes → ℤ → Result CipherError TokenCipher
unfolding work_factor new_token_cipher
derive_token_cipher lib passphrase salt iterations =
    if ltb (length salt) 16
    then err salt_too_short
    else if ltb (work_factor iterations) min_pbkdf2_iterations
    then err iterations_too_low
    else new_token_cipher (lib.pbkdf2 passphrase salt (work_factor iterations))

-- GenerateKey and GenerateSalt; `io.ReadFull(rand.Reader, …)` gives as many bytes as asked, or fails.
unfoldable pub generate_key : (ℕ → Option Bytes) → Result CipherError Bytes
generate_key random = elim (random 32) [ none ↦ err no_random_bytes | some key ↦ ok key ]

-- `if length < 16 { length = 16 }`
unfoldable pub salt_length : ℤ → ℕ
salt_length (pos n) = if ltb n 16 then 16 else n
salt_length (negsuc n) = 16

unfoldable pub generate_salt : (ℕ → Option Bytes) → ℤ → Result CipherError Bytes
unfolding salt_length
generate_salt random length = elim (random (salt_length length)) [
  | none ↦ err no_random_bytes
  | some salt ↦ ok salt
]

-- `aes.NewCipher` takes a key of 16, 24 or 32 bytes.
abbrev pub usable : Bytes → Bool
usable key = nat_eq (length key) 16 || nat_eq (length key) 24 || nat_eq (length key) 32

-- `seal`; the nonce is what `rand.Reader` gave, if it did.
unfoldable pub seal_data :
    Library → Option Bytes → TokenCipher → Bytes → Bytes → Result CipherError Str
seal_data lib none tc plaintext data' =
    err (if usable tc.master_key then no_random_bytes else cipher_unusable)
seal_data lib (some nonce) tc plaintext data' =
    if usable tc.master_key
    then ok (lib.encode (nonce ++ lib.gcm_seal tc.master_key nonce plaintext data'))
    else err cipher_unusable

unfoldable pub seal : Library → Option Bytes → TokenCipher → Bytes → Result CipherError Str
unfolding seal_data
seal lib nonce tc plaintext = if plaintext == [] then ok [] else seal_data lib nonce tc plaintext []

unfoldable pub seal_with_context :
    Library → Option Bytes → TokenCipher → Bytes → Bytes → Result CipherError Str
unfolding seal_data
seal_with_context lib nonce tc plaintext context = seal_data lib nonce tc plaintext context

-- `ciphertext[nonceLen:]`
unfoldable pub drop : ℕ → Bytes → Bytes
drop zero bs = bs
drop (suc n) [] = []
drop (suc n) (b ∷ bs) = drop n bs

abbrev pub opened : Option Bytes → Result CipherError Bytes
opened none = err decryption_failed
opened (some plaintext) = ok plaintext

unfoldable pub decrypt_with_key : Library → Bytes → Bytes → Bytes → Result CipherError Bytes
unfolding drop
decrypt_with_key lib key ciphertext data' =
    if not (usable key)
    then err cipher_unusable
    else if ltb (length ciphertext) lib.nonce_size
    then err ciphertext_corrupted
    else opened
        (lib.gcm_open key (take lib.nonce_size ciphertext) (drop lib.nonce_size ciphertext) data')

abbrev pub or_failed : Result CipherError Bytes → Result CipherError Bytes
or_failed (ok plaintext) = ok plaintext
or_failed (err e) = err decryption_failed

-- The answer of the current key, or else that of the previous one where the first failed to
-- authenticate.
unfoldable pub or_previous :
    Option Bytes
    → (Bytes → Result CipherError Bytes)
    → Result CipherError Bytes
    → Result CipherError Bytes
or_previous previous decrypt (ok plaintext) = ok plaintext
or_previous none decrypt (err e) = err e
or_previous (some key) decrypt (err decryption_failed) = or_failed (decrypt key)
or_previous (some key) decrypt (err e) = err e

unfoldable pub open_decoded :
    Library → TokenCipher → Bytes → Option Bytes → Result CipherError Bytes
unfolding decrypt_with_key or_previous
open_decoded lib tc data' none = err ciphertext_corrupted
open_decoded lib tc data' (some ciphertext) =
    or_previous tc.previous_key (λ key. decrypt_with_key lib key ciphertext data')
      (decrypt_with_key lib tc.master_key ciphertext data')

-- `open`
unfoldable pub open_data : Library → TokenCipher → Str → Bytes → Result CipherError Bytes
unfolding open_decoded
open_data lib tc encoded data' = open_decoded lib tc data' (lib.decode encoded)

unfoldable pub open_plain : Library → TokenCipher → Str → Result CipherError Bytes
unfolding open_data
open_plain lib tc encoded = if encoded == [] then ok [] else open_data lib tc encoded []

unfoldable pub open_with_context : Library → TokenCipher → Str → Bytes → Result CipherError Bytes
unfolding open_data
open_with_context lib tc encoded context =
    if encoded == [] then err ciphertext_corrupted else open_data lib tc encoded context

-- The plaintext with whether it was bound: `legacy` is asked where the bound read fails.
unfoldable pub or_legacy :
    Result CipherError Bytes → Result CipherError Bytes → Result CipherError (Bytes × Bool)
or_legacy (ok plaintext) legacy = ok (plaintext, true)
or_legacy (err e) (ok plaintext) = ok (plaintext, false)
or_legacy (err e) (err f) = err f

unfoldable pub open_with_context_or_legacy :
    Library → TokenCipher → Str → Bytes → Result CipherError (Bytes × Bool)
unfolding or_legacy open_data
open_with_context_or_legacy lib tc encoded context =
    if encoded == []
    then ok ([], false)
    else or_legacy (open_data lib tc encoded context) (open_data lib tc encoded [])

unfoldable pub re_seal_with_context :
    Library → Option Bytes → TokenCipher → Str → Bytes → Result CipherError Str
unfolding open_plain seal_with_context
re_seal_with_context lib nonce tc encoded context = do
  plaintext ← open_plain lib tc encoded
  seal_with_context lib nonce tc plaintext context
