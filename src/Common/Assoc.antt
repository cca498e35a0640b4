-- ===== src/Common/Assoc.antt =====
-- Go's `map[string]V`, as an association list: `m[k]`, `delete(m, k)`, `m[k] = v`.
use Prim.Native.Nat.{ℕ, suc, ◌+◌, ◌≤◌}
use mathlib.Core.Path.{◌≡◌}
use mathlib.Core.Bool.{Bool, true}
use mathlib.Core.Option.{Option, none, some}
use mathlib.Core.List.{List, [], ◌∷◌}
use native.Mathlib.Omega.{arith}
use terraform_suite_identity.Common.Tests.{if◌then◌else◌}
use terraform_suite_identity.Common.Text.{Str, ◌==◌, eq_iff}

abbrev pub Assoc {ℓ} : Type ℓ → Type ℓ
Assoc V = List (Str × V)

module _ {ℓ} {V : Type ℓ} where
  unfoldable pub get : Assoc V → Str → Option V
  get [] k = none
  get ((j, v) ∷ m) k = if j == k then some v else get m k

  unfoldable pub delete : Assoc V → Str → Assoc V
  delete [] k = []
  delete ((j, v) ∷ m) k = let rest = delete m k in if j == k then rest else (j, v) ∷ rest

  unfoldable pub put : Assoc V → Str → V → Assoc V
  unfolding delete
  put m k v = (k, v) ∷ delete m k

  pub get-delete :
      (m : Assoc V) (k j : Str) → get (delete m k) j ≡ (if k == j then none else get m j)
  unfolding get delete
  get-delete [] k j = ground arith
  get-delete ((i, v) ∷ m) k j = ground (arith, get-delete m k j, eq_iff i k, eq_iff i j, eq_iff k j)

  pub get-put :
      (m : Assoc V) (k j : Str) (v : V) → get (put m k v) j ≡ (if k == j then some v else get m j)
  unfolding put get
  get-put m k j v = ground (arith, get-delete m k j)

  -- How many entries pass a test on their keys.
  unfoldable pub count : (Str → Bool) → Assoc V → ℕ
  count test [] = 0
  count test ((k, v) ∷ m) = let rest = count test m in if test k then suc rest else rest

  pub count-delete-le :
      (test : Str → Bool) (m : Assoc V) (k : Str) → count test (delete m k) ≤ count test m
  unfolding count delete
  count-delete-le test [] k = omega arith
  count-delete-le test ((j, v) ∷ m) k = ground (arith, count-delete-le test m k)

  -- A key that is there is counted, and deleting it uncounts it.
  pub count-delete_there :
      (test : Str → Bool) (m : Assoc V) (k : Str) (v : V)
      → get m k ≡ some v
      → test k ≡ true
      → count test (delete m k) + 1 ≤ count test m
  unfolding count delete get
  count-delete_there test [] k v h t = cc
  count-delete_there test ((j, w) ∷ m) k v h t =
      ground (arith, eq_iff j k, count-delete_there test m k v, count-delete-le test m k)
