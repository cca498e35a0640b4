-- ===== src/Auth/ApiKeys/Header.antt =====
-- The extraction of a key from a header (identity/auth/apikey.go).
use terraform_suite_identity.Common.{
  ℕ, Str, lit, ◌==◌, eq_iff, trim_space, [], ◌∷◌, ◌++◌, true, false, some, ok, err, ◌≡◌, ◌≢◌, refl,
  ap, ◌∙◌, arith,
}
use terraform_suite_identity.Auth.ApiKeys.{
  key_empty, is_blank, trim_blanks, split_blank, equal_fold, key_of_rest,
  extract_api_key_from_header,
}

-- No blank in it.
abbrev pub IsWord : Str → Type 0
IsWord [] = Unit {0}
IsWord (c ∷ s) = (is_blank c ≡ false) × IsWord s

abbrev pub IsBlank : Str → Type 0
IsBlank [] = Unit {0}
IsBlank (c ∷ s) = (is_blank c ≡ true) × IsBlank s

split_blank-word :
    (w : Str) (c : ℕ) (rest : Str)
    → IsWord w
    → is_blank c ≡ true
    → split_blank (w ++ c ∷ rest) ≡ some (w, rest)
unfolding split_blank
split_blank-word [] c rest h b = ground arith
split_blank-word (d ∷ w) c rest h b = let ih = split_blank-word w c rest h.1 b in ground (arith, ih)

trim_blanks-word :
    (blanks : Str) (d : ℕ) (s : Str)
    → IsBlank blanks
    → is_blank d ≡ false
    → trim_blanks (blanks ++ d ∷ s) ≡ d ∷ s
unfolding trim_blanks
trim_blanks-word [] d s h b = ground arith
trim_blanks-word (c ∷ blanks) d s h b =
    let ih = trim_blanks-word blanks d s h.1 b in ground (arith, ih)

key_of_rest_lem :
    (scheme rest : Str)
    → equal_fold scheme (lit "Bearer") ≡ true
    → (trim_space rest ≢ [] → key_of_rest (some (scheme, rest)) ≡ ok (trim_space rest))
      × (trim_space rest ≡ [] → key_of_rest (some (scheme, rest)) ≡ err key_empty)
unfolding key_of_rest
key_of_rest_lem scheme rest bearer = (
  λ some_key. ground (arith, eq_iff (trim_space rest) []),
  λ no_key. ground (arith, eq_iff (trim_space rest) []),
)

not_empty : (blanks : Str) (d : ℕ) (s : Str) → (blanks ++ d ∷ s) == [] ≡ false
unfolding ◌==◌
not_empty [] d s = refl
not_empty (c ∷ blanks) d s = refl

header_lem :
    (blanks : Str) (d : ℕ) (scheme : Str) (c : ℕ) (rest : Str)
    → IsBlank blanks
    → IsWord (d ∷ scheme)
    → is_blank c ≡ true
    → extract_api_key_from_header (blanks ++ (d ∷ (scheme ++ c ∷ rest)))
      ≡ key_of_rest (some (d ∷ scheme, rest))
unfolding extract_api_key_from_header
header_lem blanks d scheme c rest bl word b =
    let full = not_empty blanks d (scheme ++ c ∷ rest) in
    let cut = trim_blanks-word blanks d (scheme ++ c ∷ rest) bl word.0 in
    let split = split_blank-word (d ∷ scheme) c rest word b in
    rw full (ap (λ s. key_of_rest (split_blank s)) cut ∙ ap key_of_rest split)

-- A header with the scheme, in any case and after any blanks, one blank and a key gives the key
-- without the space around it, and no key where nothing else is left.
extract_api_key_lem :
    (blanks : Str) (d : ℕ) (scheme : Str) (c : ℕ) (rest : Str)
    → IsBlank blanks
    → IsWord (d ∷ scheme)
    → is_blank c ≡ true
    → equal_fold (d ∷ scheme) (lit "Bearer") ≡ true
    → (trim_space rest ≢ []
        → extract_api_key_from_header (blanks ++ (d ∷ (scheme ++ c ∷ rest))) ≡ ok (trim_space rest))
      × (trim_space rest ≡ []
          → extract_api_key_from_header (blanks ++ (d ∷ (scheme ++ c ∷ rest))) ≡ err key_empty)
extract_api_key_lem blanks d scheme c rest bl word b bearer =
    let header = header_lem blanks d scheme c rest bl word b in
    let (taken, missing) = key_of_rest_lem (d ∷ scheme) rest bearer in
    (λ some_key. header ∙ taken some_key, λ no_key. header ∙ missing no_key)
