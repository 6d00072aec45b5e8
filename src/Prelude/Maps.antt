-- ===== src/Prelude/Maps.antt =====
-- `Map` with string keys: its entries in the order of their first insertion.
use mathlib.Core.Path.{◌≡◌, refl, sym, ap, subst}
use mathlib.Core.Logic.{◌⊎◌, inl, inr}
use mathlib.Core.Bool.{Bool, true, false, ◌||◌}
use mathlib.Core.Option.{Option, none, some, some-injective}
use mathlib.Core.List.{List, [], ◌∷◌}
use native.Mathlib.Omega.{arith}
use versi_go.Prelude.Tests.{if◌then◌else◌, Bool-cases}
use versi_go.Prelude.Texts.{Text, eq_text, eq_text_iff, eq_text_refl}

module _ {ℓ} {V : Type ℓ} where
  -- `map.set(key, value)`: a present key keeps its place.
  unfoldable pub put : Text → V → List (Text × V) → List (Text × V)
  put key value [] = (key, value) ∷ []
  put key value ((k, v) ∷ entries) =
      let rest = put key value entries in
      if eq_text k key then (k, value) ∷ entries else (k, v) ∷ rest

  -- `map.get(key)`
  unfoldable pub get_elem? : Text → List (Text × V) → Option V
  get_elem? key [] = none
  get_elem? key ((k, v) ∷ entries) =
      let rest = get_elem? key entries in if eq_text k key then some v else rest

  -- `map.has(key)`
  unfoldable pub has : Text → List (Text × V) → Bool
  has key [] = false
  has key ((k, v) ∷ entries) = let rest = has key entries in if eq_text k key then true else rest

module _ {ℓ} {V : Type ℓ} where
  -- What is found after `set` is the value that was set at that key, or was there before.
  pub get_elem?-put :
      (key k : Text) (value x : V) (entries : List (Text × V))
      → get_elem? k (put key value entries) ≡ some x
      → ((x ≡ value) × (k ≡ key)) ⊎ (get_elem? k entries ≡ some x)
  unfolding get_elem? put
  get_elem?-put key k value x [] e = elim (Bool-cases (eq_text key k)) [
    | inl same ↦ inl (sym (some-injective _ _ (rw same at e)), sym ((eq_text_iff key k).0 same))
    | inr differs ↦ ground arith
  ]
  get_elem?-put key k value x ((j, v) ∷ entries) e = elim (Bool-cases (eq_text j key)) [
    | inl there ↦ ground (arith, eq_text_iff j key, eq_text_iff j k)
    | inr elsewhere ↦ ground (arith, get_elem?-put key k value x entries)
  ]

  pub has-put :
      (key k : Text) (value : V) (entries : List (Text × V))
      → has k (put key value entries) ≡ (eq_text key k || has k entries)
  unfolding has put
  has-put key k value [] = ground arith
  has-put key k value ((j, v) ∷ entries) = elim (Bool-cases (eq_text j key)) [
    | inl there ↦ ground (arith, (eq_text_iff j key).0 there, has-put key k value entries)
    | inr elsewhere ↦ ground (arith, has-put key k value entries)
  ]

  -- `set` and `get` at one key, and at another one.
  pub get_elem?-put_same :
      (key : Text) (value : V) (entries : List (Text × V))
      → get_elem? key (put key value entries) ≡ some value
  unfolding get_elem? put
  get_elem?-put_same key value [] = rw (eq_text_refl key) refl
  get_elem?-put_same key value ((j, v) ∷ entries) = elim (Bool-cases (eq_text j key)) [
    | inl there ↦ rw (there, there) refl
    | inr elsewhere ↦ rw (elsewhere, elsewhere) (get_elem?-put_same key value entries)
  ]

  pub get_elem?-put_other :
      (key k : Text) (value : V) (entries : List (Text × V))
      → eq_text key k ≡ false
      → get_elem? k (put key value entries) ≡ get_elem? k entries
  unfolding get_elem? put
  get_elem?-put_other key k value [] h = rw h refl
  get_elem?-put_other key k value ((j, v) ∷ entries) h = elim (Bool-cases (eq_text j key)) [
    | inl there ↦
        let other : eq_text j k ≡ false =
          subst (λ x. eq_text x k ≡ false) (sym ((eq_text_iff j key).0 there)) h in
        rw (there, other) refl
    | inr elsewhere ↦
        rw elsewhere
          (ap (λ x. if eq_text j k then some v else x) (get_elem?-put_other key k value entries h))
  ]

  pub get_elem?-has :
      (key : Text) (value : V) (entries : List (Text × V))
      → get_elem? key entries ≡ some value
      → has key entries ≡ true
  unfolding get_elem? has
  get_elem?-has key value [] h = ground arith
  get_elem?-has key value ((j, v) ∷ entries) h = elim (Bool-cases (eq_text j key)) [
    | inl here ↦ rw here refl
    | inr there ↦ rw there (get_elem?-has key value entries (rw there at h))
  ]
