-- ===== src/Prelude/Decimal.antt =====
-- The decimal numeral that JavaScript prints for a whole number below 2^53 (`${n}`), where its
-- numbers are exact.
use Prim.Native.Nat.{ℕ, zero, suc, ◌+◌, ◌/◌, ◌%◌, ◌≤◌}
use mathlib.Core.Path.{◌≡◌, refl}
use mathlib.Core.List.{[], ◌∷◌}
use native.Mathlib.Omega.{arith}
use easy_webdav.Prelude.Tests.{◌==◌, if◌then◌else◌}
use easy_webdav.Prelude.Lists.{All}
use easy_webdav.Prelude.Texts.{Text}

-- One digit a round; `decimal` gives one round more than the number has digits.
unfoldable pub decimal_from : ℕ → ℕ → Text → Text
decimal_from zero n out = out
decimal_from (suc fuel) n out =
    let rest = decimal_from fuel (n / 10) ((b'0' + n % 10) ∷ out) in
    if n / 10 == 0 then (b'0' + n % 10) ∷ out else rest

unfoldable pub decimal : ℕ → Text
unfolding decimal_from
decimal n = decimal_from (suc n) n []

abbrev pub IsDigit : ℕ → Type 0
IsDigit c = (b'0' ≤ c) × (c ≤ b'9')

decimal_from-IsDigit :
    (fuel n : ℕ) (out : Text) → All IsDigit out → All IsDigit (decimal_from fuel n out)
unfolding decimal_from
decimal_from-IsDigit zero n out h = h
decimal_from-IsDigit (suc fuel) n out h =
    ground (arith, decimal_from-IsDigit fuel (n / 10) ((b'0' + n % 10) ∷ out))

-- A printed number holds digits only.
pub decimal-IsDigit : (n : ℕ) → All IsDigit (decimal n)
unfolding decimal
decimal-IsDigit n = decimal_from-IsDigit (suc n) n [] tt

decimal_test : decimal 8443 ≡ b'8' ∷ b'4' ∷ b'4' ∷ b'3' ∷ []
unfolding decimal
decimal_test = refl
