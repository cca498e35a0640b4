-- ===== src/Common/Decimal.antt =====
-- `strconv.Itoa` and `%d` on a number that is not negative.
use Prim.Native.Nat.{ℕ, zero, suc, ◌+◌, ◌/◌, ◌%◌}
use mathlib.Core.List.{[], ◌∷◌, ◌++◌}
use terraform_suite_identity.Common.Tests.{ltb, if◌then◌else◌}
use terraform_suite_identity.Common.Text.{Str}

-- One digit a round, on fuel: a number has fewer digits than its value plus one.
pub digits : ℕ → ℕ → Str
digits zero n = []
digits (suc fuel) n =
    let more = digits fuel (n / 10) ++ (n % 10 + 48) ∷ [] in
    if ltb n 10 then (n + 48) ∷ [] else more

unfoldable pub decimal : ℕ → Str
unfolding digits
decimal n = digits (suc n) n
