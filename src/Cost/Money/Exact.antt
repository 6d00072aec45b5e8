-- ===== src/Cost/Money/Exact.antt =====
-- Exact fractions as one instance of the doubles of cost-schedule.ts, for runs.
use versi_go.Prelude.{ℕ, ◌+◌, ◌*◌, ◌/◌, ◌^◌, ◌<◌, ◌≡◌, arith}
use versi_go.Cost.Money.{Doubles}

-- `top / bottom`
pub record Fraction : Type 0 where
  pub top : ℕ
  pub bottom : ℕ

-- Half a unit is rounded up.
abbrev pub round_fraction : Fraction → ℕ
round_fraction q = (2 * q.top + q.bottom) / (2 * q.bottom)

abbrev pub whole : ℕ → Fraction
whole n = record { top = n; bottom = 1 }

abbrev pub mul_fraction : Fraction → Fraction → Fraction
mul_fraction p q = record { top = p.top * q.top; bottom = p.bottom * q.bottom }

abbrev pub div_fraction : Fraction → Fraction → Fraction
div_fraction p q = record { top = p.top * q.bottom; bottom = p.bottom * q.top }

pub round-whole : (n : ℕ) → n < 2 ^ 53 → round_fraction (whole n) ≡ n
round-whole n h = omega arith

pub round-hundredths_lem :
    (n : ℕ)
    → n < 2 ^ 46
    → round_fraction (mul_fraction (div_fraction (whole n) (whole 100)) (whole 100)) ≡ n
round-hundredths_lem n h = omega arith

abbrev pub exact : Doubles
exact = record {
  Num = Fraction;
  of_nat = whole;
  mul = mul_fraction;
  div = div_fraction;
  round = round_fraction;
  round-of_nat = round-whole;
  round-hundredths = round-hundredths_lem;
}
