-- ===== src/HttpSafe/Ranges.antt =====
-- The denied ranges of IPv4 (identity/httpsafe/httpsafe.go) as ranges of numbers.
use terraform_suite_identity.Common.{
  passes, passes-at, ℕ, ◌<◌, ◌==◌, nat_eq, leb, ltb, [], ◌∷◌, ◌++◌, Bool, true, false, not, ◌&&◌,
  ◌||◌, Option, none, some, ◌≡◌, refl, arith,
}
use Prim.Native.Nat.{bit_and}
use terraform_suite_identity.HttpSafe.{
  zeros, to4, is_loopback, is_unspecified, is_link_local_unicast, is_link_local_multicast,
  is_multicast, is_private, denied_v4, denied_short, denied_range, Reason,
}

abbrev agree : Bool → Bool → Bool
agree true b = b
agree false b = not b

agree-eq : (a b : Bool) → agree a b ≡ true → a ≡ b
agree-eq true true h = refl
agree-eq true false h = cc h
agree-eq false true h = cc h
agree-eq false false h = refl

abbrev between : ℕ → ℕ → ℕ → Bool
between low high x = leb low x && ltb x high

-- A test on the bits of a byte is a test of its range.
by_table :
    (p q : ℕ → Bool) (x : ℕ) → passes (λ n. agree (p n) (q n)) 256 ≡ true → x < 256 → p x ≡ q x
by_table p q x h lt = agree-eq _ _ (passes-at (λ n. agree (p n) (q n)) 256 x lt h)

multicast_bits : (x : ℕ) → x < 256 → nat_eq (bit_and x 0xf0) 0xe0 ≡ between 224 240 x
unfolding passes
multicast_bits x h = by_table (λ n. nat_eq (bit_and n 0xf0) 0xe0) (between 224 240) x refl h

private_bits : (x : ℕ) → x < 256 → nat_eq (bit_and x 0xf0) 16 ≡ between 16 32 x
unfolding passes
private_bits x h = by_table (λ n. nat_eq (bit_and n 0xf0) 16) (between 16 32) x refl h

shared_bits : (x : ℕ) → x < 256 → nat_eq (bit_and x 0xc0) 64 ≡ between 64 128 x
unfolding passes
shared_bits x h = by_table (λ n. nat_eq (bit_and n 0xc0) 64) (between 64 128) x refl h

abbrev pub is_denied : Option Reason → Bool
is_denied none = false
is_denied (some r) = true

-- The address a.b.c.d is in one of the ranges 0/8, 10/8, 100.64/10, 127/8, 169.254/16, 172.16/12,
-- 192.168/16 and 224/4, or is 255.255.255.255.
abbrev pub internal_v4 : ℕ → ℕ → ℕ → ℕ → Bool
internal_v4 a b c d =
    nat_eq a 0
    || nat_eq a 10
    || (nat_eq a 100 && leb 64 b && ltb b 128)
    || nat_eq a 127
    || (nat_eq a 169 && nat_eq b 254)
    || (nat_eq a 172 && leb 16 b && ltb b 32)
    || (nat_eq a 192 && nat_eq b 168)
    || (leb 224 a && ltb a 240)
    || (nat_eq a 255 && nat_eq b 255 && nat_eq c 255 && nat_eq d 255)

-- An IPv4 address, of four bytes or mapped into sixteen, is denied exactly when it lies in one of
-- the internal ranges or is the broadcast address.
pub denied_range_iff :
    (a b c d : ℕ)
    → a < 256
    → b < 256
    → (is_denied (denied_range (a ∷ b ∷ c ∷ d ∷ [])) ≡ internal_v4 a b c d)
      × (denied_range (zeros 10 ++ 0xff ∷ 0xff ∷ a ∷ b ∷ c ∷ d ∷ [])
          ≡ denied_range (a ∷ b ∷ c ∷ d ∷ []))
unfolding denied_range to4 denied_short is_loopback is_unspecified is_link_local_unicast
    is_link_local_multicast is_multicast is_private denied_v4 ◌==◌
denied_range_iff a b c d ha hb =
    let m = multicast_bits a ha in
    let p = private_bits b hb in let s = shared_bits b hb in (ground (arith, m, p, s), refl)
