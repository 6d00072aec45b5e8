-- ===== src/Prelude/Appends.antt =====
-- Tests over appended and mapped lists, for tables that get a new row or are written row by row.
use Prim.Native.Nat.{◌+◌}
use mathlib.Core.Path.{◌≡◌, refl, sym}
use mathlib.Core.List.{List, [], ◌∷◌, ◌++◌, Memᴰ, map}
use mathlib.Core.Bool.{Bool, ◌||◌}
use mathlib.Core.Logic.{inl, inr}
use mathlib.Core.Option.{some, some-injective}
use native.Mathlib.Omega.{arith}
use versi_go.Prelude.Tests.{Bool-cases}
use versi_go.Prelude.Lists.{filter, any, count, find}

module _ {ℓ} {A : Type ℓ} where
  pub filter-append :
      (p : A → Bool) (xs ys : List A) → filter p (xs ++ ys) ≡ filter p xs ++ filter p ys
  filter-append p [] ys = refl
  filter-append p (x ∷ xs) ys = ground (arith, filter-append p xs ys)

  pub count-append : (p : A → Bool) (xs ys : List A) → count p (xs ++ ys) ≡ count p xs + count p ys
  count-append p [] ys = omega arith
  count-append p (x ∷ xs) ys = ground (arith, count-append p xs ys)

  pub any-append : (p : A → Bool) (xs ys : List A) → any p (xs ++ ys) ≡ (any p xs || any p ys)
  any-append p [] ys = refl
  any-append p (x ∷ xs) ys = ground (arith, any-append p xs ys)

  -- A write that the test does not see.
  pub find-map :
      (p : A → Bool) (f : A → A) (xs : List A) (old : A)
      → ((x : A) → p (f x) ≡ p x)
      → find p xs ≡ some old
      → find p (map f xs) ≡ some (f old)
  find-map p f [] old same e = ground arith
  find-map p f (x ∷ xs) old same e = ground (arith, same x, find-map p f xs old same)

  pub find-Mem : (p : A → Bool) (xs : List A) (row : A) → find p xs ≡ some row → Memᴰ row xs
  find-Mem p [] row e = ground arith
  find-Mem p (x ∷ xs) row e = elim (Bool-cases (p x)) [
    | inl here ↦ Memᴰ.head (sym (some-injective _ _ (rw here at e)))
    | inr later ↦ Memᴰ.tail (find-Mem p xs row (rw later at e))
  ]
