-- ===== src/Common/Text.antt =====
-- Go strings, as lists of code points: equality, `strings.TrimSpace`, `strings.HasPrefix`.
use Prim.Native.Char.{code}
use Prim.Native.Nat.{ℕ}
use Prim.Native.String.{String}
use mathlib.Core.Path.{◌≡◌, refl}
use mathlib.Core.Logic.{◌↔◌, ◌≢◌}
use mathlib.Core.Bool.{Bool, true, false, ◌&&◌, ◌||◌}
use mathlib.Core.List.{List, [], ◌∷◌, ◌++◌}
use native.Mathlib.Omega.{arith}
use terraform_suite_identity.Common.Lists.{In}
use terraform_suite_identity.Common.Tests.{leb, nat_eq, if◌then◌else◌}

abbrev pub Str : Type 0
Str = List ℕ

-- The code points of a literal.
abbrev pub lit : String → Str
lit String.[] = []
lit (String.◌∷◌ c s) = code c ∷ lit s

infix 50 ◌==◌
unfoldable pub ◌==◌ : Str → Str → Bool
[] == [] = true
[] == (b ∷ t) = false
(a ∷ s) == [] = false
(a ∷ s) == (b ∷ t) = nat_eq a b && s == t

pub eq_iff : (s t : Str) → ((s == t) ≡ true) ↔ (s ≡ t)
unfolding ◌==◌
eq_iff [] [] = ground arith
eq_iff [] (b ∷ t) = ground arith
eq_iff (a ∷ s) [] = ground arith
eq_iff (a ∷ s) (b ∷ t) = ground (arith, eq_iff s t)

pub eq_refl : (s : Str) → (s == s) ≡ true
eq_refl s = (eq_iff s s).1 refl

-- Two literals are told apart by the test.
pub ne_of_test : (s t : Str) → (s == t) ≡ false → s ≢ t
ne_of_test s t h e = ground (arith, eq_iff s t)

-- `unicode.IsSpace`.
pub is_space : ℕ → Bool
is_space c =
    (leb 9 c && leb c 13)
    || nat_eq c 32
    || nat_eq c 0x85
    || nat_eq c 0xa0
    || nat_eq c 0x1680
    || (leb 0x2000 c && leb c 0x200a)
    || nat_eq c 0x2028
    || nat_eq c 0x2029
    || nat_eq c 0x202f
    || nat_eq c 0x205f
    || nat_eq c 0x3000

pub trim_left : Str → Str
trim_left [] = []
trim_left (c ∷ s) = let rest = trim_left s in if is_space c then rest else c ∷ s

-- A space is kept where something that is no space follows it.
pub trim_cons : ℕ → Str → Str
trim_cons c [] = if is_space c then [] else c ∷ []
trim_cons c (d ∷ s) = c ∷ d ∷ s

pub trim_right : Str → Str
trim_right [] = []
trim_right (c ∷ s) = trim_cons c (trim_right s)

unfoldable pub trim_space : Str → Str
unfolding is_space trim_left trim_cons trim_right
trim_space s = trim_right (trim_left s)

-- The first character of a text, if any, is no space.
abbrev Starts : Str → Type 0
Starts [] = Unit {0}
Starts (c ∷ s) = is_space c ≡ false

trim_left-Starts : (s : Str) → Starts (trim_left s)
unfolding trim_left
trim_left-Starts [] = tt
trim_left-Starts (c ∷ s) = ground (arith, trim_left-Starts s)

trim_left_id : (s : Str) → Starts s → trim_left s ≡ s
unfolding trim_left
trim_left_id [] h = refl
trim_left_id (c ∷ s) h = ground arith

trim_cons-Starts : (c : ℕ) (s : Str) → is_space c ≡ false → Starts (trim_cons c s)
unfolding trim_cons
trim_cons-Starts c [] h = ground arith
trim_cons-Starts c (d ∷ s) h = h

trim_right-Starts : (s : Str) → Starts s → Starts (trim_right s)
unfolding trim_right
trim_right-Starts [] h = tt
trim_right-Starts (c ∷ s) h = trim_cons-Starts c (trim_right s) h

trim_right-cons : (c : ℕ) (s : Str) → trim_right s ≡ s → trim_right (trim_cons c s) ≡ trim_cons c s
unfolding trim_right trim_cons
trim_right-cons c [] h = ground arith
trim_right-cons c (d ∷ s) h = rw h

trim_right_idem : (s : Str) → trim_right (trim_right s) ≡ trim_right s
unfolding trim_right
trim_right_idem [] = refl
trim_right_idem (c ∷ s) = trim_right-cons c (trim_right s) (trim_right_idem s)

pub trim_space_idem : (s : Str) → trim_space (trim_space s) ≡ trim_space s
unfolding trim_space
trim_space_idem s =
    rw (trim_left_id (trim_right (trim_left s)) (trim_right-Starts _ (trim_left-Starts s)))
      (trim_right_idem (trim_left s))

pub trim_space-empty : trim_space [] ≡ []
unfolding trim_space
trim_space-empty = refl

-- `strings.HasPrefix`.
unfoldable pub has_prefix : Str → Str → Bool
has_prefix s [] = true
has_prefix [] (p ∷ ps) = false
has_prefix (c ∷ s) (p ∷ ps) = nat_eq c p && has_prefix s ps

pub has_prefix-append : (p s : Str) → has_prefix (p ++ s) p ≡ true
unfolding has_prefix
has_prefix-append [] s = refl
has_prefix-append (c ∷ p) s = ground (arith, has_prefix-append p s)

-- `slices.Contains` and the loops that look for an equal string.
unfoldable pub contains : List Str → Str → Bool
contains [] s = false
contains (x ∷ xs) s = if x == s then true else contains xs s

pub contains_iff : (xs : List Str) (s : Str) → (contains xs s ≡ true) ↔ In s xs
unfolding contains
contains_iff [] s = (λ h. cc, λ h. elim h [ ])
contains_iff (x ∷ xs) s = (
  λ h. ground (arith, eq_iff x s, contains_iff xs s),
  λ h. ground (arith, eq_iff x s, contains_iff xs s),
)
