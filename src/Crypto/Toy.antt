-- ===== src/Crypto/Toy.antt =====
-- A library that meets the laws: a sealed text is the key, the additional data and the plaintext.
use terraform_suite_identity.Common.{
  ℕ, zero, suc, ◌==◌, eq_refl, eq_iff, [], ◌∷◌, length, Bool, true, false, ◌&&◌, Option, none, some,
  if◌then◌else◌, ◌≡◌, refl, sym, ap, ◌∙◌,
}
use terraform_suite_identity.Crypto.{Bytes, Library}
use terraform_suite_identity.Crypto.Sealed.{LibraryLaws}
use terraform_suite_identity.Auth.Tokens.Toy.{put_str, get_str, get-put}

abbrev pub repeated : ℕ → ℕ → Bytes
repeated zero b = []
repeated (suc n) b = b ∷ repeated n b

abbrev pub toy_seal : Bytes → Bytes → Bytes → Bytes → Bytes
toy_seal key nonce plaintext data' = put_str key (put_str data' plaintext)

abbrev pub toy_read : Bytes → Bytes → Bytes × Bytes → Option Bytes
toy_read key data' (k, r) =
    if (k == key) && ((get_str r).0 == data') then some (get_str r).1 else none

abbrev pub toy : Library
toy = record {
  nonce_size = 12;
  gcm_seal = toy_seal;
  gcm_open = λ key nonce sealed data'. toy_read key data' (get_str sealed);
  encode = λ bs. bs;
  decode = some;
  pbkdf2 = λ passphrase salt n. repeated 32 (length passphrase);
}

toy_read-lem :
    (key key' plaintext data' data'' : Bytes)
    → toy_read key' data'' (get_str (put_str key (put_str data' plaintext)))
      ≡ (if (key == key') && (data' == data'') then some plaintext else none)
toy_read-lem key key' plaintext data' data'' =
    ap (toy_read key' data'') (get-put key (put_str data' plaintext))
    ∙ ap (λ (p : Bytes × Bytes). if (key == key') && (p.0 == data'') then some p.1 else none)
        (get-put data' plaintext)

pub toy_laws : LibraryLaws toy
toy_laws = record {
  nonce_of_12 = refl;
  opens = λ key nonce plaintext data'.
      toy_read-lem key key plaintext data' data' ∙ rw (eq_refl key, eq_refl data') refl;
  authentic = λ key key' nonce plaintext data' data'' other h.
      both key key' data' data'' plaintext other
        (sym (toy_read-lem key key' plaintext data' data'') ∙ h);
  decodes = λ bs. refl;
  not_empty = λ b bs e. cc e;
}
  where
    both :
        (key key' data' data'' plaintext other : Bytes)
        → (if (key == key') && (data' == data'') then some plaintext else none) ≡ some other
        → (key' ≡ key) × (data'' ≡ data')
    both key key' data' data'' plaintext other h =
        let (k, d) = by_tests (key == key') (data' == data'') h in
        (sym ((eq_iff key key').0 k), sym ((eq_iff data' data'').0 d))
      where
        by_tests :
            (a b : Bool)
            → (if a && b then some plaintext else none) ≡ some other
            → (a ≡ true) × (b ≡ true)
        by_tests false b g = cc g
        by_tests true false g = cc g
        by_tests true true g = (refl, refl)
