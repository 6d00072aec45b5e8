-- ===== src/Prelude/Texts.antt =====
-- Texts as the lists of their UTF-16 code units, with what the code calls of `String.prototype`:
-- `trim`, `===` and the removal of a run of units at the end.
use Prim.Native.Nat.{ℕ}
use Prim.Native.Char.{code}
use Prim.Native.String.{String}
use mathlib.Core.Path.{◌≡◌, refl}
use mathlib.Core.Logic.{◌↔◌, ◌⊎◌, inl, inr}
use mathlib.Core.Bool.{Bool, true, false, ◌&&◌, ◌||◌}
use mathlib.Core.List.{List, [], ◌∷◌}
use native.Mathlib.Omega.{arith}
use versi_go.Prelude.Tests.{leb, ◌==◌, if◌then◌else◌, Bool-cases}

abbrev pub Text : Type 0
Text = List ℕ

-- The units of a literal whose characters all lie below U+10000.
abbrev pub codes : String → Text
codes String.[] = []
codes (String.◌∷◌ c s) = code c ∷ codes s

unfoldable pub eq_text : Text → Text → Bool
eq_text [] [] = true
eq_text [] (d ∷ t) = false
eq_text (c ∷ s) [] = false
eq_text (c ∷ s) (d ∷ t) = c == d && eq_text s t

pub eq_text_iff : (s t : Text) → (eq_text s t ≡ true) ↔ (s ≡ t)
unfolding eq_text
eq_text_iff [] [] = (λ h. refl, λ h. refl)
eq_text_iff [] (d ∷ t) = (λ h. cc, λ h. cc)
eq_text_iff (c ∷ s) [] = (λ h. cc, λ h. cc)
eq_text_iff (c ∷ s) (d ∷ t) = ground (arith, eq_text_iff s t)

pub eq_text_refl : (s : Text) → eq_text s s ≡ true
eq_text_refl s = (eq_text_iff s s).1 refl

-- `!text`: a text is falsy when it is empty.
abbrev pub is_empty : Text → Bool
is_empty [] = true
is_empty (c ∷ s) = false

-- White space and line ends of ECMAScript.
unfoldable pub is_space : ℕ → Bool
is_space c =
    (leb 9 c && leb c 13)
    || c == 32
    || c == 160
    || c == 0x1680
    || (leb 0x2000 c && leb c 0x200a)
    || c == 0x2028
    || c == 0x2029
    || c == 0x202f
    || c == 0x205f
    || c == 0x3000
    || c == 0xfeff

unfoldable pub drop_while : (ℕ → Bool) → Text → Text
drop_while p [] = []
drop_while p (c ∷ s) = let rest = drop_while p s in if p c then rest else c ∷ s

-- The text with the units behind the last one that fails the test removed.
unfoldable pub drop_while_end : (ℕ → Bool) → Text → Text
drop_while_end p [] = []
drop_while_end p (c ∷ s) = elim (drop_while_end p s) [
  | [] ↦ if p c then [] else c ∷ []
  | d ∷ t ↦ c ∷ d ∷ t
]

unfoldable pub trim : Text → Text
unfolding drop_while drop_while_end is_space
trim s = drop_while_end is_space (drop_while is_space s)

pub drop_while_end_idem :
    (p : ℕ → Bool) (s : Text) → drop_while_end p (drop_while_end p s) ≡ drop_while_end p s
unfolding drop_while_end
drop_while_end_idem p [] = refl
drop_while_end_idem p (c ∷ s) = ground (arith, drop_while_end_idem p s)

-- The first unit of what `drop_while` leaves fails the test, and a text that begins so keeps its
-- first unit.
drop_while-starts :
    (p : ℕ → Bool) (s : Text)
    → (drop_while p s ≡ []) ⊎ ((c : ℕ) × ((t : Text) × (drop_while p s ≡ c ∷ t) × (p c ≡ false)))
unfolding drop_while
drop_while-starts p [] = inl refl
drop_while-starts p (c ∷ s) = elim (Bool-cases (p c)) [
  | inl e ↦ rw e (drop_while-starts p s)
  | inr e ↦ rw e (inr (c, (s, refl, e)))
]

drop_while_end-cons :
    (p : ℕ → Bool) (c : ℕ) (t : Text)
    → p c ≡ false
    → drop_while_end p (c ∷ t) ≡ c ∷ drop_while_end p t
unfolding drop_while_end
drop_while_end-cons p c t h = ground arith

drop_while-keeps : (p : ℕ → Bool) (c : ℕ) (t : Text) → p c ≡ false → drop_while p (c ∷ t) ≡ c ∷ t
unfolding drop_while
drop_while-keeps p c t h = rw h refl

pub trim_idem : (s : Text) → trim (trim s) ≡ trim s
unfolding trim
trim_idem s = elim (drop_while-starts is_space s) [
  | inl e ↦ rw e refl
  | inr (c, (t, e, h)) ↦
      let kept = drop_while_end-cons is_space c t h in
      rw (e, kept, drop_while-keeps is_space c (drop_while_end is_space t) h, ← kept)
        (drop_while_end_idem is_space (c ∷ t))
]
