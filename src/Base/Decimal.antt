-- ===== src/Base/Decimal.antt =====
-- Numbers in a template literal: the decimal digits.
use Prim.Native.Nat.{ℕ, zero, suc, ◌+◌, ◌/◌, ◌%◌}
use mathlib.Core.List.{[], ◌∷◌}
use mathlib.Core.Path.{◌≡◌, refl}
use symbol_bootstrap.Base.Tests.{ltb, if◌then◌else◌}
use symbol_bootstrap.Base.Text.{Text, text}

-- A number has at most as many digits as its value and one more.
unfoldable pub decimal_digits : ℕ → ℕ → Text → Text
decimal_digits zero n rest = rest
decimal_digits (suc fuel) n rest =
    let digit = (48 + n % 10) ∷ rest in
    let more = decimal_digits fuel (n / 10) digit in if ltb n 10 then digit else more

unfoldable pub decimal : ℕ → Text
unfolding decimal_digits
decimal n = decimal_digits (suc n) n []

decimal_zero : decimal 0 ≡ text "0"
unfolding decimal
decimal_zero = refl

decimal_large : decimal 7902 ≡ text "7902"
unfolding decimal
decimal_large = refl
