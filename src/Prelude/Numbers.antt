-- ===== src/Prelude/Numbers.antt =====
-- A JavaScript `number` that a setting or a parameter holds: an integer that is a double, or no finite
-- number. Fractions do not occur where the model uses it (settings are validated as integers).
use Prim.Native.Nat.{ℕ}

pub data Number : Type 0 where
  not_a_number infinity negative_infinity : Number
  -- `negative n` is -(n + 1)
  negative : ℕ → Number
  natural : ℕ → Number
