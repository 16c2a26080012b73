-- ===== src/Floats.antt =====
-- The double-precision arithmetic of JavaScript as far as the progress and usage percentages use it.
-- It belongs to the platform: the operations are the fields of a record, with the facts about
-- correctly rounded arithmetic on whole numbers below 2^53 that the theorems rest on.
pub mod FixedPoint
use easy_webdav.Prelude.{ℕ, ◌≤◌, ◌<◌, ◌^◌, ◌≡◌, arith, ap, ◌∙◌}

-- `Number.MAX_SAFE_INTEGER + 1`.
abbrev pub max_safe : ℕ
max_safe = 2 ^ 53

pub record Floats : Type 1 where
  pub Num : Type 0
  pub of_ℕ : ℕ → Num
  pub div : Num → Num → Num
  pub mul : Num → Num → Num
  -- `Math.round` of a number that is not negative.
  pub round : Num → ℕ
  pub Le : Num → Num → Type 0
  pub div_self : (n : ℕ) → 0 < n → n < max_safe → div (of_ℕ n) (of_ℕ n) ≡ of_ℕ 1
  pub zero_div : (n : ℕ) → 0 < n → n < max_safe → div (of_ℕ 0) (of_ℕ n) ≡ of_ℕ 0
  pub one_mul : (n : ℕ) → n < max_safe → mul (of_ℕ 1) (of_ℕ n) ≡ of_ℕ n
  pub zero_mul : (n : ℕ) → n < max_safe → mul (of_ℕ 0) (of_ℕ n) ≡ of_ℕ 0
  pub round_of_ℕ : (n : ℕ) → n < max_safe → round (of_ℕ n) ≡ n
  pub div_mono :
      (a b c : ℕ)
      → a ≤ b
      → b < max_safe
      → 0 < c
      → c < max_safe
      → Le (div (of_ℕ a) (of_ℕ c)) (div (of_ℕ b) (of_ℕ c))
  pub mul_mono : (x y : Num) (n : ℕ) → n < max_safe → Le x y → Le (mul x (of_ℕ n)) (mul y (of_ℕ n))
  pub round_mono : (x y : Num) → Le x y → round x ≤ round y

module _ (floats : Floats) where
  open floats use {
    of_ℕ, div, mul, round, div_self, zero_div, one_mul, zero_mul, round_of_ℕ, div_mono, mul_mono,
    round_mono,
  }

  -- `Math.round((part / whole) * 100)`.
  unfoldable pub percent : ℕ → ℕ → ℕ
  percent part whole = round (mul (div (of_ℕ part) (of_ℕ whole)) (of_ℕ 100))

  pub percent_mono :
      (a b whole : ℕ)
      → a ≤ b
      → b < max_safe
      → 0 < whole
      → whole < max_safe
      → percent a whole ≤ percent b whole
  unfolding percent
  percent_mono a b whole h k p q =
      round_mono _ _ (mul_mono _ _ 100 (omega arith) (div_mono a b whole h k p q))

  pub percent_self : (whole : ℕ) → 0 < whole → whole < max_safe → percent whole whole ≡ 100
  unfolding percent
  percent_self whole p q =
      ap (λ x. round (mul x (of_ℕ 100))) (div_self whole p q)
      ∙ ap round (one_mul 100 (omega arith))
      ∙ round_of_ℕ 100 (omega arith)

  pub percent_zero : (whole : ℕ) → 0 < whole → whole < max_safe → percent 0 whole ≡ 0
  unfolding percent
  percent_zero whole p q =
      ap (λ x. round (mul x (of_ℕ 100))) (zero_div whole p q)
      ∙ ap round (zero_mul 100 (omega arith))
      ∙ round_of_ℕ 0 (omega arith)
