-- ===== src/Prelude/Decimals.antt =====
-- Decimal numerals: `String(n)` and `Number(text)` of a text of digits, for natural numbers.
use Prim.Native.Nat.{ℕ, zero, suc, ◌+◌, ◌-◌, ◌*◌, ◌/◌, ◌%◌, ◌<◌}
use mathlib.Core.Path.{◌≡◌, refl}
use mathlib.Core.Logic.{inl, inr}
use mathlib.Core.Bool.{Bool, true, false, ◌&&◌}
use mathlib.Core.List.{[], ◌∷◌}
use native.Mathlib.Omega.{arith}
use versi_go.Prelude.Tests.{leb, ltb, if◌then◌else◌, Bool-cases}
use versi_go.Prelude.Texts.{Text, is_empty}

-- `String(n)`: the digits, the last one found first.
unfoldable pub digits : ℕ → ℕ → Text → Text
digits zero n rest = rest
digits (suc fuel) n rest =
    let more = digits fuel (n / 10) ((48 + n % 10) ∷ rest) in
    if ltb n 10 then (48 + n) ∷ rest else more

-- A number has at most as many digits as its successor counts.
unfoldable pub to_string : ℕ → Text
unfolding digits
to_string n = digits (suc n) n []

-- The units of `\d`.
abbrev pub is_digit : ℕ → Bool
is_digit c = leb 48 c && leb c 57

abbrev pub are_digits : Text → Bool
are_digits [] = true
are_digits (c ∷ t) = is_digit c && are_digits t

-- The number that digits are, behind digits that are the first argument.
unfoldable pub read_digits : ℕ → Text → ℕ
read_digits high [] = high
read_digits high (c ∷ t) = read_digits (high * 10 + (c - 48)) t

read-digits :
    (fuel n : ℕ) (rest : Text) → n < fuel → read_digits 0 (digits fuel n rest) ≡ read_digits n rest
unfolding read_digits digits
read-digits zero n rest h = ground arith
read-digits (suc fuel) n rest h = elim (Bool-cases (ltb n 10)) [
  | inl small ↦ ground arith
  | inr large ↦
      rw (large, read-digits fuel (n / 10) ((48 + n % 10) ∷ rest) (ground arith), value n) refl
]
  where
    value : (n : ℕ) → (n / 10) * 10 + (48 + n % 10 - 48) ≡ n
    value n = omega arith

-- Printing and reading give the number back.
pub read_digits-to_string : (n : ℕ) → read_digits 0 (to_string n) ≡ n
unfolding to_string read_digits
read_digits-to_string n = read-digits (suc n) n [] (omega arith)

digits-are_digits :
    (fuel n : ℕ) (rest : Text) → are_digits rest ≡ true → are_digits (digits fuel n rest) ≡ true
unfolding digits
digits-are_digits zero n rest h = h
digits-are_digits (suc fuel) n rest h =
    ground (arith, digits-are_digits fuel (n / 10) ((48 + n % 10) ∷ rest))

pub to_string-are_digits : (n : ℕ) → are_digits (to_string n) ≡ true
unfolding to_string
to_string-are_digits n = digits-are_digits (suc n) n [] refl

digits-some : (fuel n c : ℕ) (rest : Text) → is_empty (digits fuel n (c ∷ rest)) ≡ false
unfolding digits
digits-some zero n c rest = refl
digits-some (suc fuel) n c rest = ground (arith, digits-some fuel (n / 10) (48 + n % 10) (c ∷ rest))

pub to_string-some : (n : ℕ) → is_empty (to_string n) ≡ false
unfolding to_string digits
to_string-some n = ground (arith, digits-some n (n / 10) (48 + n % 10) [])
