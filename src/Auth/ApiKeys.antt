-- ===== src/Auth/ApiKeys.antt =====
-- identity/auth/apikey.go: generation, verification and extraction of API keys. Where a key is
-- generated its length counts bytes, so there a string is the list of its bytes; a header is a list
-- of code points. bcrypt is given, and so are the bytes of `rand.Read`.
pub mod Generated
pub mod Header
mod Tests
use terraform_suite_identity.Common.{
  ℕ, zero, suc, ◌+◌, ◌-◌, ◌*◌, Str, lit, ◌==◌, nat_eq, leb, ltb, trim_space, List, [], ◌∷◌, ◌++◌,
  length, take, Bool, true, false, not, ◌&&◌, ◌||◌, Option, none, some, if◌then◌else◌, Result, ok,
  err, ◌>>=◌, ◌>>◌, require,
}
use terraform_suite_identity.OauthState.Manager.{raw_url_encode}

abbrev pub api_key_length : ℕ
api_key_length = 32

abbrev pub display_prefix_length : ℕ
display_prefix_length = 10

abbrev pub bcrypt_cost : ℕ
bcrypt_cost = 12

abbrev pub min_prefix_random_chars : ℕ
min_prefix_random_chars = 2

abbrev pub max_api_key_prefix_length : ℕ
max_api_key_prefix_length = 7

-- `GenerateFromPassword`, with the cost, and `CompareHashAndPassword`, whether it gives no error.
pub record Bcrypt : Type 0 where
  pub generate_from_password : Str → ℕ → Option Str
  pub compare_hash_and_password : Str → Str → Bool

pub data ApiKeyError : Type 0 where
  prefix_too_long no_random_bytes not_hashed : ApiKeyError
  header_empty not_bearer key_empty : ApiKeyError

-- The key, its hash, and its display prefix.
pub record ApiKey : Type 0 where
  pub key : Str
  pub hash : Str
  pub display_prefix : Str

-- `fmt.Sprintf("%s_%s", prefix, randomPart)`
unfoldable pub full_key : Str → List ℕ → Str
unfolding raw_url_encode
full_key prefix random = prefix ++ (lit "_" ++ raw_url_encode random)

unfoldable pub display : Str → Str
display key = if ltb display_prefix_length (length key) then take display_prefix_length key else key

unfoldable pub hash_key : Bcrypt → Str → Result ApiKeyError ApiKey
unfolding display
hash_key bcrypt key = elim (bcrypt.generate_from_password key bcrypt_cost) [
  | none ↦ err not_hashed
  | some hash ↦ ok (record { key = key; hash = hash; display_prefix = display key })
]

-- `none` is a failure of `rand.Read`.
unfoldable pub generate_api_key : Bcrypt → Option (List ℕ) → Str → Result ApiKeyError ApiKey
unfolding full_key hash_key
generate_api_key bcrypt none prefix =
    err (if ltb max_api_key_prefix_length (length prefix) then prefix_too_long else no_random_bytes)
generate_api_key bcrypt (some random) prefix =
    if ltb max_api_key_prefix_length (length prefix)
    then err prefix_too_long
    else hash_key bcrypt (full_key prefix random)

unfoldable pub validate_api_key : Bcrypt → Str → Str → Bool
validate_api_key bcrypt provided stored = bcrypt.compare_hash_and_password stored provided

abbrev pub is_blank : ℕ → Bool
is_blank c = nat_eq c 0x20 || nat_eq c 0x09

-- `strings.TrimLeft(header, " \t")`
unfoldable pub trim_blanks : Str → Str
trim_blanks [] = []
trim_blanks (c ∷ s) = let rest = trim_blanks s in if is_blank c then rest else c ∷ s

-- `trimmed[:sep]` and `trimmed[sep+1:]` for the first blank, if there is one.
unfoldable pub split_blank : Str → Option (Str × Str)
split_blank [] = none
split_blank (c ∷ s) =
    let rest = split_blank s in
    if is_blank c
    then some ([], s)
    else elim rest [ none ↦ none | some (before, after) ↦ some (c ∷ before, after) ]

-- The fold of `strings.EqualFold` on ASCII, where no other character folds to a letter of `Bearer`.
abbrev pub fold : ℕ → ℕ
fold c = if leb 0x41 c && leb c 0x5a then c + 0x20 else c

unfoldable pub equal_fold : Str → Str → Bool
equal_fold [] [] = true
equal_fold [] (d ∷ t) = false
equal_fold (c ∷ s) [] = false
equal_fold (c ∷ s) (d ∷ t) = nat_eq (fold c) (fold d) && equal_fold s t

unfoldable pub key_of_rest : Option (Str × Str) → Result ApiKeyError Str
unfolding equal_fold trim_space
key_of_rest none = err not_bearer
key_of_rest (some (scheme, rest)) =
    if not (equal_fold scheme (lit "Bearer"))
    then err not_bearer
    else if trim_space rest == []
    then err key_empty
    else ok (trim_space rest)

unfoldable pub extract_api_key_from_header : Str → Result ApiKeyError Str
unfolding split_blank trim_blanks key_of_rest
extract_api_key_from_header header =
    if header == [] then err header_empty else key_of_rest (split_blank (trim_blanks header))
