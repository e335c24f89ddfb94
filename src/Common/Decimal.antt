-- ===== src/Common/Decimal.antt =====
-- `%d` of fmt.
use Prim.Native.Nat.{ℕ, zero, suc, ◌/◌, ◌%◌}
use Prim.Native.String.{String}
use mathlib.Core.List.{List, [], ◌∷◌}
use jupyter_operator.Common.Tests.{concat, leb, if◌then◌else◌}

digit : List String → ℕ → String
digit [] d = ""
digit (s ∷ rest) zero = s
digit (s ∷ rest) (suc d) = digit rest d

-- A number has no more digits than its value plus one.
print : ℕ → ℕ → String
print zero n = ""
print (suc fuel) n =
    let last = digit ("0" ∷ "1" ∷ "2" ∷ "3" ∷ "4" ∷ "5" ∷ "6" ∷ "7" ∷ "8" ∷ "9" ∷ []) (n % 10) in
    let front = print fuel (n / 10) in if leb n 9 then last else concat front last

unfoldable pub decimal : ℕ → String
unfolding print digit
decimal n = print (suc n) n
