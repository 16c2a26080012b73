-- ===== src/Floats/FixedPoint.antt =====
-- Numbers in thousandths: arithmetic that has the properties assumed of the platform's.
use easy_webdav.Prelude.{ℕ, ◌+◌, ◌*◌, ◌/◌, ◌≤◌, ◌<◌, ◌≡◌, arith}
use native.Mathlib.Nat.{mul-div_cancel_left, le-div_iff_mul-le, div-mul-le_self, zero-div}
use easy_webdav.Floats.{Floats}

abbrev quotient : ℕ → ℕ → ℕ
quotient a b = a * 1000 / b

pub quotient_self : (n : ℕ) → 0 < n → quotient (1000 * n) (1000 * n) ≡ 1000
quotient_self n h = mul-div_cancel_left 1000 (omega arith)

pub quotient-zero : (n : ℕ) → quotient 0 n ≡ 0
quotient-zero n = zero-div n

pub quotient_mono :
    (a b c : ℕ) → a ≤ b → 0 < c → quotient (1000 * a) (1000 * c) ≤ quotient (1000 * b) (1000 * c)
quotient_mono a b c h p =
    (le-div_iff_mul-le (omega arith)).1
      (omega (arith, div-mul-le_self (1000 * a * 1000) (1000 * c)))

abbrev product : ℕ → ℕ → ℕ
product a b = a * b / 1000

pub product_mono : (x y n : ℕ) → x ≤ y → product x (1000 * n) ≤ product y (1000 * n)
product_mono x y n h = grind arith

abbrev pub thousandths : Floats
thousandths = record {
  Num = ℕ;
  of_ℕ = λ n. 1000 * n;
  div = quotient;
  mul = product;
  round = λ x. (x + 500) / 1000;
  Le = λ x y. x ≤ y;
  div_self = λ n h _. quotient_self n h;
  zero_div = λ n _ _. quotient-zero (1000 * n);
  one_mul = λ n _. omega arith;
  zero_mul = λ n _. omega arith;
  round_of_ℕ = λ n _. omega arith;
  div_mono = λ a b c h _ p _. quotient_mono a b c h p;
  mul_mono = λ x y n _ h. product_mono x y n h;
  round_mono = λ x y h. omega arith;
}
