-- ===== src/Prelude/Doubles.antt =====
-- `Number(text)` and `String(number)` for integers: the double that is next to an integer, and the
-- shortest numeral of a double.
use Prim.Native.Nat.{ℕ, zero, suc, ◌+◌, ◌-◌, ◌*◌, ◌/◌, ◌%◌, ◌^◌}
use mathlib.Core.Path.{◌≡◌, refl}
use mathlib.Core.Bool.{Bool, true, false, ◌&&◌, ◌||◌}
use mathlib.Core.List.{[], ◌∷◌, ◌++◌}
use versi_go.Prelude.Tests.{ltb, ◌==◌, if◌then◌else◌}
use versi_go.Prelude.Texts.{Text, codes, is_empty, drop_while_end}
use versi_go.Prelude.Lists.{length}
use versi_go.Prelude.Numbers.{Number, not_a_number, infinity, negative_infinity, negative, natural}
use versi_go.Prelude.Decimals.{to_string}

-- 2 ^ 53: below it every integer is a double.
abbrev pub safe_limit : ℕ
safe_limit = 9_007_199_254_740_992

-- The binary exponent that leaves 53 bits of an integer. The doubles end below 2 ^ 1024, so that 972 is
-- one exponent more than is used.
unfoldable pub exponent_of : ℕ → ℕ → ℕ
exponent_of zero n = zero
exponent_of (suc fuel) n = elim (ltb n safe_limit) [
  | true ↦ zero
  | false ↦ suc (exponent_of fuel (n / 2))
]

-- The multiple of a unit next to a number, of two the one that is an even multiple.
abbrev pub round_up : ℕ → ℕ → Bool
round_up unit n = ltb unit (2 * (n % unit)) || (2 * (n % unit) == unit && (n / unit) % 2 == 1)

abbrev pub next_multiple : ℕ → ℕ → ℕ
next_multiple unit n = if round_up unit n then n / unit + 1 else n / unit

abbrev pub finite_or_infinite : ℕ → Number
finite_or_infinite n = if ltb n (2 ^ 1024) then natural n else infinity

abbrev rounded_to : ℕ → ℕ → Number
rounded_to unit n = finite_or_infinite (next_multiple unit n * unit)

-- The double next to an integer.
unfoldable pub double_of : ℕ → Number
unfolding exponent_of
double_of n = elim (ltb n safe_limit) [
  | true ↦ natural n
  | false ↦ rounded_to (2 ^ exponent_of 972 n) n
]

abbrev is_natural : ℕ → Number → Bool
is_natural n (natural m) = m == n
is_natural n _ = false

-- Whether a numeral reads back as a double.
abbrev reads_back : ℕ → ℕ → Bool
reads_back n candidate = is_natural n (double_of candidate)

-- The numeral below and the one above with a unit for their last digit: of those that read back the one
-- that is closer, and of two such the even one.
abbrev pick : ℕ → ℕ → Bool → Bool → ℕ → ℕ
pick unit n true true rest = next_multiple unit n * unit
pick unit n true false rest = n / unit * unit
pick unit n false true rest = (n / unit + 1) * unit
pick unit n false false rest = rest

-- The numeral with the fewest digits that reads back, from a number of final zeros down; 0 zeros leave the
-- number itself.
unfoldable pub shortest : ℕ → ℕ → ℕ
unfolding double_of
shortest zero n = n
shortest (suc zeros) n =
    elim (reads_back n (n / 10 ^ suc zeros * 10 ^ suc zeros)
      || reads_back n ((n / 10 ^ suc zeros + 1) * 10 ^ suc zeros)) [
        | true ↦
            pick (10 ^ suc zeros) n (reads_back n (n / 10 ^ suc zeros * 10 ^ suc zeros))
              (reads_back n ((n / 10 ^ suc zeros + 1) * 10 ^ suc zeros)) n
        | false ↦ shortest zeros n
      ]

abbrev is_nought : ℕ → Bool
is_nought c = c == 48

abbrev behind_point : Text → Text
behind_point t = if is_empty t then t else 46 ∷ t

-- One digit, the others behind a point, and the decimal exponent.
abbrev scientific : Text → ℕ → Text
scientific [] exponent = []
scientific (c ∷ t) exponent = c ∷ (behind_point t ++ codes "e+" ++ to_string exponent)

-- A numeral without an exponent up to 21 digits.
abbrev numeral_of : ℕ → Text
numeral_of n =
    if ltb n (10 ^ 21)
    then to_string n
    else scientific (drop_while_end is_nought (to_string n)) (length (to_string n) - 1)

-- `String` of a double that is a natural number. Below 2 ^ 53 it is the decimal numeral, since no
-- shorter one reads back.
unfoldable pub print_natural : ℕ → Text
unfolding shortest
print_natural n = elim (ltb n safe_limit) [
  | true ↦ to_string n
  | false ↦ numeral_of (shortest (length (to_string n) - 1) n)
]

unfoldable pub print : Number → Text
unfolding print_natural
print not_a_number = codes "NaN"
print infinity = codes "Infinity"
print negative_infinity = codes "-Infinity"
print (negative n) = 45 ∷ print_natural (suc n)
print (natural n) = print_natural n

pub double_of-small : (n : ℕ) → ltb n safe_limit ≡ true → double_of n ≡ natural n
unfolding double_of
double_of-small n h = rw (double_of, h) refl

pub double_of-large :
    (n : ℕ)
    → ltb n safe_limit ≡ false
    → double_of n
      ≡ finite_or_infinite (next_multiple (2 ^ exponent_of 972 n) n * 2 ^ exponent_of 972 n)
unfolding double_of
double_of-large n h = rw (double_of, h) refl

pub print_natural-small : (n : ℕ) → ltb n safe_limit ≡ true → print_natural n ≡ to_string n
unfolding print_natural
print_natural-small n h = rw (print_natural, h) refl
