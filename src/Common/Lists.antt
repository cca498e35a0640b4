-- ===== src/Common/Lists.antt =====
-- Lists: membership as a Boolean test and as a predicate by recursion, length, `All`.
use Prim.Native.Nat.{ℕ, zero, suc, ◌+◌, ◌<◌, ◌≤◌}
use mathlib.Core.Path.{◌≡◌, refl, subst, sym, ap}
use mathlib.Core.List.{List, [], ◌∷◌, ◌++◌, map}
use mathlib.Core.Bool.{Bool, true, false}
use mathlib.Core.Option.{Option, none, some}
use mathlib.Core.Logic.{◌⊎◌, inl, inr}
use native.Mathlib.Omega.{arith}
use terraform_suite_identity.Common.Tests.{if◌then◌else◌}

module _ {ℓ} {A : Type ℓ} where
  abbrev pub length : List A → ℕ
  length [] = 0
  length (x ∷ xs) = suc (length xs)

  -- `len(xs) == 0`
  abbrev pub is_empty : List A → Bool
  is_empty [] = true
  is_empty (x ∷ xs) = false

  abbrev pub get_elem? : List A → ℕ → Option A
  get_elem? [] i = none
  get_elem? (x ∷ xs) zero = some x
  get_elem? (x ∷ xs) (suc i) = get_elem? xs i

  unfoldable pub take : ℕ → List A → List A
  take zero xs = []
  take (suc n) [] = []
  take (suc n) (x ∷ xs) = x ∷ take n xs

  pub length-append : (xs ys : List A) → length (xs ++ ys) ≡ length xs + length ys
  length-append [] ys = omega arith
  length-append (x ∷ xs) ys = omega (arith, length-append xs ys)

  -- What is appended changes no position before it, and begins at the length.
  pub get_elem?-append_left :
      (xs ys : List A) (i : ℕ) → i < length xs → get_elem? (xs ++ ys) i ≡ get_elem? xs i
  get_elem?-append_left [] ys i h = elim h [ ]
  get_elem?-append_left (x ∷ xs) ys zero h = refl
  get_elem?-append_left (x ∷ xs) ys (suc i) h = get_elem?-append_left xs ys i (omega arith)

  pub get_elem?-append_length :
      (xs : List A) (y : A) (ys : List A) → get_elem? (xs ++ y ∷ ys) (length xs) ≡ some y
  get_elem?-append_length [] y ys = refl
  get_elem?-append_length (x ∷ xs) y ys = get_elem?-append_length xs y ys

  abbrev pub All {κ} : (A → Type κ) → List A → Type κ
  All P [] = Unit
  All P (x ∷ xs) = P x × All P xs

-- Membership by recursion, with the position of the item kept.
abbrev pub In : {A : Type 0} → A → List A → Type 0
In a [] = ⊥
In a (x ∷ xs) = (x ≡ a) ⊎ In a xs

module _ {A : Type 0} where
  unfoldable pub filter : (A → Bool) → List A → List A
  filter p [] = []
  filter p (x ∷ xs) = let rest = filter p xs in if p x then x ∷ rest else rest

  unfoldable pub count_if : (A → Bool) → List A → ℕ
  count_if p [] = 0
  count_if p (x ∷ xs) = let rest = count_if p xs in if p x then suc rest else rest

  -- What is kept was there and passes the test, and the other way round.
  pub filter-In : (p : A → Bool) (x : A) (xs : List A) → In x (filter p xs) → In x xs × (p x ≡ true)
  unfolding filter
  filter-In p x [] h = elim h [ ]
  filter-In p x (y ∷ ys) h = head (p y) refl (filter-In p x ys) h
    where
      head :
          (b : Bool)
          → p y ≡ b
          → (In x (filter p ys) → In x ys × (p x ≡ true))
          → In x (if b then y ∷ filter p ys else filter p ys)
          → In x (y ∷ ys) × (p x ≡ true)
      head true e ih (inl same) = (inl same, subst (λ z. p z ≡ true) same e)
      head true e ih (inr later) = let rest = ih later in (inr rest.0, rest.1)
      head false e ih later = let rest = ih later in (inr rest.0, rest.1)

  pub In-filter : (p : A → Bool) (x : A) (xs : List A) → In x xs → p x ≡ true → In x (filter p xs)
  unfolding filter
  In-filter p x [] h t = elim h [ ]
  In-filter p x (y ∷ ys) (inl same) t = head (p y) (subst (λ z. p z ≡ true) (sym same) t)
    where
      head : (b : Bool) → b ≡ true → In x (if b then y ∷ filter p ys else filter p ys)
      head true e = inl same
      head false e = cc e
  In-filter p x (y ∷ ys) (inr later) t = tail (p y) (In-filter p x ys later t)
    where
      tail : (b : Bool) → In x (filter p ys) → In x (if b then y ∷ filter p ys else filter p ys)
      tail true h = inr h
      tail false h = h

  pub take-In : (n : ℕ) (x : A) (xs : List A) → In x (take n xs) → In x xs
  unfolding take
  take-In zero x xs h = elim h [ ]
  take-In (suc n) x [] h = h
  take-In (suc n) x (y ∷ ys) (inl same) = inl same
  take-In (suc n) x (y ∷ ys) (inr later) = inr (take-In n x ys later)

  pub All-In : (P : A → Type 0) (xs : List A) → All P xs → (x : A) → In x xs → P x
  All-In P [] h x i = elim i [ ]
  All-In P (y ∷ ys) h x (inl same) = subst P same h.0
  All-In P (y ∷ ys) h x (inr later) = All-In P ys h.1 x later

  pub In-append_left : (x : A) (xs ys : List A) → In x xs → In x (xs ++ ys)
  In-append_left x (y ∷ xs) ys (inl h) = inl h
  In-append_left x (y ∷ xs) ys (inr h) = inr (In-append_left x xs ys h)
  In-append_left x [] ys h = elim h [ ]

  pub In-append_right : (x : A) (xs ys : List A) → In x ys → In x (xs ++ ys)
  In-append_right x [] ys h = h
  In-append_right x (z ∷ zs) ys h = inr (In-append_right x zs ys h)

  pub In-append_last : (x : A) (xs : List A) → In x (xs ++ x ∷ [])
  In-append_last x [] = inl refl
  In-append_last x (y ∷ xs) = inr (In-append_last x xs)

  pub In-append : (x : A) (xs ys : List A) → In x (xs ++ ys) → In x xs ⊎ In x ys
  In-append x [] ys h = inr h
  In-append x (y ∷ xs) ys (inl h) = inl (inl h)
  In-append x (y ∷ xs) ys (inr h) = elim (In-append x xs ys h) [
    | inl a ↦ inl (inr a)
    | inr b ↦ inr b
  ]

pub In-map_inv :
    {A B : Type 0} (f : A → B) (y : B) (xs : List A)
    → In y (map f xs)
    → (x : A) × In x xs × (f x ≡ y)
In-map_inv f y [] h = elim h [ ]
In-map_inv f y (x ∷ xs) (inl e) = (x, inl refl, e)
In-map_inv f y (x ∷ xs) (inr h) = let (z, there, e) = In-map_inv f y xs h in (z, inr there, e)

pub In-map : {A B : Type 0} (f : A → B) (x : A) (xs : List A) → In x xs → In (f x) (map f xs)
In-map f x [] h = elim h [ ]
In-map f x (y ∷ xs) (inl same) = inl (ap f same)
In-map f x (y ∷ xs) (inr later) = inr (In-map f x xs later)

-- A test that another implies holds less often, and still less where one member tells them apart.
module _ {A : Type 0} (p q : A → Bool) (implied : (x : A) → p x ≡ true → q x ≡ true) where
  pub count_if-le : (xs : List A) → count_if p xs ≤ count_if q xs
  unfolding count_if
  count_if-le [] = omega arith
  count_if-le (x ∷ xs) = ground (arith, implied x, count_if-le xs)

  pub count_if-lt :
      (xs : List A) (y : A) → In y xs → p y ≡ false → q y ≡ true → count_if p xs < count_if q xs
  unfolding count_if
  count_if-lt [] y i f t = elim i [ ]
  count_if-lt (x ∷ xs) y (inl same) f t =
      let f' = subst (λ z. p z ≡ false) (sym same) f in
      let t' = subst (λ z. q z ≡ true) (sym same) t in ground (arith, f', t', count_if-le xs)
  count_if-lt (x ∷ xs) y (inr later) f t =
      let rest = count_if-lt xs y later f t in ground (arith, implied x, rest)

pub count_if-length : {A : Type 0} (p : A → Bool) (xs : List A) → count_if p xs ≤ length xs
unfolding count_if
count_if-length p [] = omega arith
count_if-length p (x ∷ xs) = ground (arith, count_if-length p xs)

-- A test of each number up to a bound, for facts that a table settles.
unfoldable pub passes : (ℕ → Bool) → ℕ → Bool
passes test zero = true
passes test (suc bound) = let below = passes test bound in if test bound then below else false

pub passes-at :
    (test : ℕ → Bool) (bound k : ℕ) → k < bound → passes test bound ≡ true → test k ≡ true
unfolding passes
passes-at test zero k low table = absurd (omega (arith, low))
passes-at test (suc bound) k low table = ground (arith, passes-at test bound k)
