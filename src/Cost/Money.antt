-- ===== src/Cost/Money.antt =====
-- cost-schedule.ts: amounts. The code computes with doubles, which are a parameter here: a type of
-- numbers with the operations used, of which only the exactness of whole cents is relied upon.
-- Amounts are not negative (the DTOs demand it), so rounding yields a natural number.
pub mod Sums
pub mod Exact
mod Tests
use versi_go.Prelude.{ℕ, ◌+◌, ◌^◌, ◌<◌, ◌≡◌, Bool, true, false, Option, none, some, List, [], ◌∷◌}

pub record Doubles : Type 1 where
  pub Num : Type 0
  pub of_nat : ℕ → Num
  pub mul : Num → Num → Num
  pub div : Num → Num → Num
  -- `Math.round`
  pub round : Num → ℕ
  -- whole numbers below 2^53 are their own rounding
  pub round-of_nat : (n : ℕ) → n < 2 ^ 53 → round (of_nat n) ≡ n
  -- a hundredth of whole cents, times a hundred, rounds back to them
  pub round-hundredths :
      (n : ℕ) → n < 2 ^ 46 → round (mul (div (of_nat n) (of_nat 100)) (of_nat 100)) ≡ n

module _ (d : Doubles) where
  open d use {Num, of_nat, mul, div, round}

  -- `number | null`
  abbrev pub Amount : Type 0
  Amount = Option Num

  unfoldable pub to_cents : Num → ℕ
  to_cents amount = round (mul amount (of_nat 100))

  unfoldable pub from_cents : ℕ → Num
  from_cents cents = div (of_nat (round (of_nat cents))) (of_nat 100)

  unfoldable pub round_money : Num → Num
  round_money amount = div (of_nat (round (mul amount (of_nat 100)))) (of_nat 100)

  -- The two variables of the loop in `sumAmounts`.
  pub record Sum : Type 0 where
    pub cents : ℕ
    pub recorded : Bool

  unfoldable pub add_amount : Sum → Amount → Sum
  unfolding to_cents
  add_amount s none = s
  add_amount s (some value) = record { cents = s.cents + to_cents value; recorded = true }

  unfoldable pub add_amounts : Sum → List Amount → Sum
  add_amounts s [] = s
  add_amounts s (value ∷ rest) = add_amounts (add_amount s value) rest

  abbrev pub no_sum : Sum
  no_sum = record { cents = 0; recorded = false }

  abbrev pub amount_of : Sum → Amount
  amount_of s = elim s.recorded [ true ↦ some (from_cents s.cents) | false ↦ none ]

  unfoldable pub sum_amounts : List Amount → Amount
  unfolding add_amounts
  sum_amounts values = amount_of (add_amounts no_sum values)
