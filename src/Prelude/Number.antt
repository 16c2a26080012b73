-- ===== src/Prelude/Number.antt =====
-- `Number(text)` for the texts that the panel reads as numbers: digits, and digits with one more behind a
-- point. Any other text is taken to be no number; further decimals are outside of the model.
use Prim.Native.Nat.{ℕ, zero, suc, ◌+◌, ◌-◌, ◌*◌, ◌/◌, ◌%◌, ◌<◌}
use mathlib.Core.Path.{◌≡◌, refl}
use mathlib.Core.Bool.{Bool, true, false, ◌&&◌}
use mathlib.Core.List.{[], ◌∷◌, ◌++◌}
use mathlib.Core.Option.{Option, none, some}
use native.Mathlib.Omega.{arith}
use easy_webdav.Prelude.Tests.{◌==◌, if◌then◌else◌, leb}
use easy_webdav.Prelude.Texts.{Text}
use easy_webdav.Prelude.Decimal.{decimal, decimal_from}

abbrev is_decimal : ℕ → Bool
is_decimal c = leb b'0' c && leb c b'9'

abbrev is_empty_text : Text → Bool
is_empty_text [] = true
is_empty_text (_ ∷ _) = false

-- The digits of a whole number, behind those that make up `n`.
digits_from : ℕ → Text → Option ℕ
digits_from n [] = some n
digits_from n (c ∷ s) =
    let rest = digits_from (n * 10 + (c - b'0')) s in if is_decimal c then rest else none

-- Of the empty text `Number` gives 0.
unfoldable pub whole_number : Text → Option ℕ
unfolding digits_from
whole_number s = digits_from 0 s

digits_from-digit :
    (n d : ℕ) (s : Text) → d < 10 → digits_from n ((b'0' + d) ∷ s) ≡ digits_from (n * 10 + d) s
unfolding digits_from
digits_from-digit n d s h = ground arith

whole_number-decimal_from :
    (fuel n : ℕ) (out : Text)
    → n < fuel
    → digits_from 0 (decimal_from fuel n out) ≡ digits_from n out
unfolding decimal_from
whole_number-decimal_from zero n out h = absurd (omega arith)
whole_number-decimal_from (suc fuel) n out h = ground (
  arith,
  digits_from-digit 0 (n % 10) out,
  digits_from-digit (n / 10) (n % 10) out,
  whole_number-decimal_from fuel (n / 10) ((b'0' + n % 10) ∷ out),
)

-- A printed number is read back.
pub whole_number-decimal : (n : ℕ) → whole_number (decimal n) ≡ some n
unfolding whole_number decimal digits_from
whole_number-decimal n = whole_number-decimal_from (suc n) n [] (omega arith)

-- The number in tenths.
tenths_from : ℕ → Text → Option ℕ
tenths_from n [] = some (n * 10)
tenths_from n (c ∷ []) =
    if is_decimal c
    then some ((n * 10 + (c - b'0')) * 10)
    else if c == b'.'
    then some (n * 10)
    else none
tenths_from n (c ∷ d ∷ s) =
    let rest = tenths_from (n * 10 + (c - b'0')) (d ∷ s) in
    if is_decimal c
    then rest
    else if c == b'.' && is_decimal d && is_empty_text s
    then some (n * 10 + (d - b'0'))
    else none

unfoldable pub number_tenths : Text → Option ℕ
unfolding tenths_from
number_tenths s = tenths_from 0 s

-- A number of tenths, as it is printed.
unfoldable pub amount_text : ℕ → Text
amount_text tenths =
    if tenths % 10 == 0
    then decimal (tenths / 10)
    else decimal (tenths / 10) ++ b'.' ∷ decimal (tenths % 10)

number_tests :
    (number_tenths (b'1' ∷ b'2' ∷ b'.' ∷ b'5' ∷ []) ≡ some 125)
    × (amount_text 125 ≡ b'1' ∷ b'2' ∷ b'.' ∷ b'5' ∷ [])
unfolding number_tenths amount_text decimal tenths_from
number_tests = (refl, refl)
