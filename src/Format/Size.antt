-- ===== src/Format/Size.antt =====
-- web/src/format.ts, lines 1-13: sizes for reading. A size is a whole number of bytes below 2^53, so
-- that dividing it by 1024 is exact: the amount is the fraction of the size by a power of 1024.
use mathlib.Core.Option.{get_or}
use native.Mathlib.Nat.{mul-div-le, lt-mul-div-succ, pow-suc}
use easy_webdav.Prelude.{
  ℕ, zero, suc, ◌+◌, ◌*◌, ◌/◌, ◌%◌, ◌^◌, ◌≤◌, ◌<◌, arith, List, [], ◌∷◌, ◌++◌, Text, units, decimal,
  leb, ◌==◌, if◌then◌else◌, get_elem?, Bool-cases, inl, inr,
}

abbrev pub unit_names : List Text
unit_names = units "B" ∷ units "KB" ∷ units "MB" ∷ units "GB" ∷ units "TB" ∷ []

-- The `while` loop: `left` units are above the one at `index`, and the amount is the size divided by
-- 1024 to the power of `index`.
scale_from : ℕ → ℕ → ℕ → ℕ
scale_from zero index value = index
scale_from (suc left) index value =
    if leb (1024 ^ (index + 1)) value then scale_from left (index + 1) value else index

unfoldable pub scale : ℕ → ℕ
unfolding scale_from
scale value = scale_from 4 0 value

-- The tenths that `toFixed(1)` prints of a fraction: the nearest number of them, the larger if two are.
unfoldable pub fixed_tenths : ℕ → ℕ → ℕ
fixed_tenths value divisor = (20 * value + divisor) / (2 * divisor)

unfoldable pub to_fixed : ℕ → ℕ → Text
to_fixed value divisor =
    decimal (fixed_tenths value divisor / 10) ++ b'.' ∷ decimal (fixed_tenths value divisor % 10)

-- `UNITS[index]` for an index that the loop reaches.
abbrev pub unit_name : ℕ → Text
unit_name index = get_or (get_elem? unit_names index) []

unfoldable pub format_size : ℕ → Text
unfolding scale to_fixed
format_size value =
    if value == 0
    then units "0 B"
    else (if scale value == 0 then decimal value else to_fixed value (1024 ^ scale value))
      ++ b' ' ∷ unit_name (scale value)

scale_from_bounds :
    (left index value : ℕ)
    → (1024 ^ index ≤ value)
    → (index ≤ scale_from left index value)
      × (scale_from left index value ≤ index + left)
      × (1024 ^ scale_from left index value ≤ value)
      × (scale_from left index value < index + left
          → value < 1024 ^ (scale_from left index value + 1))
unfolding scale_from
scale_from_bounds zero index value h = (omega arith, omega arith, h, λ k. absurd (omega arith))
scale_from_bounds (suc left) index value h = elim (Bool-cases (leb (1024 ^ (index + 1)) value)) [
  | inl more ↦
      let le : 1024 ^ (index + 1) ≤ value = ground arith in
      let (a, b, c, d) = scale_from_bounds left (index + 1) value le in
      rw (more) (omega arith, omega arith, c, λ k. d (omega arith))
  | inr less ↦ rw (less) (omega arith, omega arith, h, λ k. ground arith)
]

scale_bounds :
    (value : ℕ)
    → 0 < value
    → (scale value ≤ 4)
      × (1024 ^ scale value ≤ value)
      × (scale value < 4 → value < 1024 ^ (scale value + 1))
unfolding scale
scale_bounds value h =
    let (a, b, c, d) = scale_from_bounds 4 0 value (omega arith) in (omega arith, c, d)

fixed_tenths_bounds :
    (value divisor : ℕ)
    → 0 < divisor
    → (2 * divisor * fixed_tenths value divisor ≤ 20 * value + divisor)
      × (20 * value < 2 * divisor * fixed_tenths value divisor + divisor)
unfolding fixed_tenths
fixed_tenths_bounds value divisor h =
    let below = mul-div-le (20 * value + divisor) (2 * divisor) in
    let above = lt-mul-div-succ (20 * value + divisor) {b = 2 * divisor} (omega arith) in
    (below, omega (arith, above))

pow-pos : (n : ℕ) → 0 < 1024 ^ n
pow-pos zero = omega arith
pow-pos (suc n) = rw pow-suc (omega (arith, pow-pos n))

-- For a size that is not zero, the unit is one of the five; the size is at least one of that unit, and
-- less than one of the next if there is one; and the tenths of the unit that are printed are off by
-- half a tenth at most.
pub scale-fixed_tenths :
    (value : ℕ)
    → 0 < value
    → let unit = 1024 ^ scale value in
      (scale value ≤ 4)
      × (unit ≤ value)
      × (scale value < 4 → value < 1024 ^ (scale value + 1))
      × (2 * unit * fixed_tenths value unit ≤ 20 * value + unit)
      × (20 * value < 2 * unit * fixed_tenths value unit + unit)
scale-fixed_tenths value h =
    let (a, b, c) = scale_bounds value h in
    let (d, e) = fixed_tenths_bounds value (1024 ^ scale value) (pow-pos (scale value)) in
    (a, b, c, d, e)
