-- ===== src/Prelude/Sorting.antt =====
-- `Array.prototype.sort` with a comparator: a stable insertion sort, and its first element.
use mathlib.Core.Path.{◌≡◌, subst, refl}
use mathlib.Core.Bool.{Bool, true, false}
use mathlib.Core.Logic.{◌⊎◌, inl, inr, ◌↔◌}
use mathlib.Core.Option.{Option, none, some, some-injective}
use mathlib.Core.List.{List, [], ◌∷◌, Memᴰ}
use mathlib.Core.List.Memᴰ
use native.Mathlib.Omega.{arith}
use versi_go.Prelude.Tests.{if◌then◌else◌, Bool-cases}
use versi_go.Prelude.Lists.{All, All-at, All-self}

module _ {ℓ} {A : Type ℓ} (before : A → A → Bool) where
  -- `before y x` where the comparator puts `y` strictly in front of `x`. An element goes in front of
  -- its equals, which stood behind it.
  unfoldable pub insert_sorted : A → List A → List A
  insert_sorted x [] = x ∷ []
  insert_sorted x (y ∷ ys) =
      let rest = insert_sorted x ys in if before y x then y ∷ rest else x ∷ y ∷ ys

  unfoldable pub sort : List A → List A
  unfolding insert_sorted
  sort [] = []
  sort (x ∷ xs) = insert_sorted x (sort xs)

  module _ {κ} (P : A → Type κ) where
    All-insert_sorted : (x : A) (ys : List A) → P x → All P ys → All P (insert_sorted x ys)
    unfolding insert_sorted
    All-insert_sorted x [] p q = (p, tt)
    All-insert_sorted x (y ∷ ys) p (q, r) = elim (Bool-cases (before y x)) [
      | inl e ↦ rw e (q, All-insert_sorted x ys p r)
      | inr e ↦ rw e (p, (q, r))
    ]

    pub All-sort : (xs : List A) → All P xs → All P (sort xs)
    unfolding sort
    All-sort [] h = tt
    All-sort (x ∷ xs) (p, q) = All-insert_sorted x (sort xs) p (All-sort xs q)

abbrev pub head? {ℓ} : {A : Type ℓ} → List A → Option A
head? [] = none
head? (x ∷ xs) = some x

module _ {ℓ} {A : Type ℓ} (before : A → A → Bool) where
  pub head?-sort-none : (xs : List A) → head? (sort before xs) ≡ none → xs ≡ []
  unfolding sort
  head?-sort-none [] h = refl
  head?-sort-none (x ∷ xs) h = absurd (some_head (sort before xs) h)
    where
      some_head : (ys : List A) → ¬ (head? (insert_sorted before x ys) ≡ none)
      some_head [] e = cc
      some_head (y ∷ ys) e = ground arith

  -- What holds of every element holds of the first one.
  pub head?-sort_All {κ} :
      (P : A → Type κ) (xs : List A) (first : A)
      → All P xs
      → head? (sort before xs) ≡ some first
      → P first
  head?-sort_All P xs first all e = at_head (sort before xs) (All-sort before P xs all) e
    where
      at_head : (ys : List A) → All P ys → head? ys ≡ some first → P first
      at_head [] h e' = cc
      at_head (y ∷ ys) h e' = subst P (some-injective _ _ e') h.0

  -- Nothing comes before the first element, if the comparator orders.
  module _ (asym : (x y : A) → before x y ≡ true → before y x ≡ false)
      (negtrans : (x y z : A) → before x y ≡ false → before y z ≡ false → before x z ≡ false) where
    abbrev Leads : A → List A → Type 0
    Leads first xs = All (λ x. before x first ≡ false) xs

    irreflexive : (x : A) → before x x ≡ false
    irreflexive x = elim (Bool-cases (before x x)) [ inl e ↦ asym x x e | inr e ↦ e ]

    Leads-before : (x y : A) (zs : List A) → before y x ≡ false → Leads y zs → Leads x zs
    Leads-before x y [] e h = tt
    Leads-before x y (z ∷ zs) e (k, h) = (negtrans z y x k e, Leads-before x y zs e h)

    -- The sorted list is empty with the list, or begins with an element that nothing precedes.
    sort-Leads :
        (xs : List A)
        → (xs ≡ []) ⊎ ((y : A) × ((ys : List A) × (sort before xs ≡ y ∷ ys) × Leads y xs))
    unfolding sort
    sort-Leads [] = inl refl
    sort-Leads (x ∷ xs) = elim (sort-Leads xs) [
      | inl e ↦ inr (x, ([], rw e, (irreflexive x, rw e tt)))
      | inr (y, (ys, e, h)) ↦ elim (Bool-cases (before y x)) [
        | inl b ↦ inr (y, (insert_sorted before x ys, rw (e, b), (asym y x b, h)))
        | inr b ↦ inr (x, (y ∷ ys, rw (e, b), (irreflexive x, Leads-before x y xs b h)))
      ]
    ]

    pub head?-sort-Leads :
        (xs : List A) (first : A) → head? (sort before xs) ≡ some first → Leads first xs
    head?-sort-Leads xs first e = elim (sort-Leads xs) [
      | inl none_there ↦ rw none_there tt
      | inr (y, (ys, same, h)) ↦
          let at_head : y ≡ first = some-injective _ _ (rw same at e) in
          subst (λ z. Leads z xs) at_head h
    ]

-- Sorting keeps the elements.
module _ {ℓ} {A : Type ℓ} (before : A → A → Bool) where
  insert_here : (x : A) (ys : List A) → Memᴰ x (insert_sorted before x ys)
  unfolding insert_sorted
  insert_here x [] = Memᴰ.head refl
  insert_here x (y ∷ ys) = elim (Bool-cases (before y x)) [
    | inl e ↦ rw e (Memᴰ.tail (insert_here x ys))
    | inr e ↦ rw e (Memᴰ.head refl)
  ]

  insert_later : (x z : A) (ys : List A) → Memᴰ z ys → Memᴰ z (insert_sorted before x ys)
  unfolding insert_sorted
  insert_later x z [] m = elim m [ ]
  insert_later x z (y ∷ ys) (Memᴰ.head same) = elim (Bool-cases (before y x)) [
    | inl e ↦ rw e (Memᴰ.head same)
    | inr e ↦ rw e (Memᴰ.tail (Memᴰ.head same))
  ]
  insert_later x z (y ∷ ys) (Memᴰ.tail m) = elim (Bool-cases (before y x)) [
    | inl e ↦ rw e (Memᴰ.tail (insert_later x z ys m))
    | inr e ↦ rw e (Memᴰ.tail (Memᴰ.tail m))
  ]

  of_mem : (z : A) (xs : List A) → Memᴰ z xs → Memᴰ z (sort before xs)
  unfolding sort
  of_mem z [] m = elim m [ ]
  of_mem z (x ∷ xs) (Memᴰ.head e) = Memᴰ.cast e (insert_here x (sort before xs))
  of_mem z (x ∷ xs) (Memᴰ.tail m) = insert_later x z (sort before xs) (of_mem z xs m)

  pub mem-sort : (z : A) (xs : List A) → Memᴰ z (sort before xs) ↔ Memᴰ z xs
  mem-sort z xs = (
    All-at (λ x. Memᴰ x xs) z (sort before xs)
        (All-sort before (λ x. Memᴰ x xs) xs (All-self xs xs (λ x m. m))),
    of_mem z xs,
  )
