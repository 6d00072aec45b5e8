-- ===== src/Prelude/Lists.antt =====
-- Lists measured by native numbers, Boolean filters and predicates over lists, for the rows that
-- the services read (`findMany`, `filter`, `count`).
use Prim.Native.Nat.{ℕ, zero, suc, ◌+◌, min, ◌≤◌}
use mathlib.Core.Path.{◌≡◌, refl, sym, ap, ◌∙◌, subst}
use mathlib.Core.List.{List, [], ◌∷◌, ◌++◌, Memᴰ, map}
use mathlib.Core.Bool.{Bool, true, false, ◌&&◌, ◌||◌}
use mathlib.Core.Logic.{◌↔◌, inl, inr}
use mathlib.Core.Option.{Option, none, some, some-injective}
use mathlib.Core.List.Memᴰ.{cases_cons}
use native.Mathlib.Omega.{arith}
use versi_go.Prelude.Tests.{if◌then◌else◌, Bool-cases}

module _ {ℓ} {A : Type ℓ} where
  abbrev pub length : List A → ℕ
  length [] = 0
  length (x ∷ xs) = suc (length xs)

  abbrev pub take : ℕ → List A → List A
  take zero xs = []
  take (suc n) [] = []
  take (suc n) (x ∷ xs) = x ∷ take n xs

  pub length-append : (xs ys : List A) → length (xs ++ ys) ≡ length xs + length ys
  length-append [] ys = omega arith
  length-append (x ∷ xs) ys = omega (arith, length-append xs ys)

  pub length-take : (n : ℕ) (xs : List A) → length (take n xs) ≡ min n (length xs)
  length-take zero xs = omega arith
  length-take (suc n) [] = omega arith
  length-take (suc n) (x ∷ xs) = omega (arith, length-take n xs)

  -- `rows.filter(test)`
  abbrev pub filter : (A → Bool) → List A → List A
  filter p [] = []
  filter p (x ∷ xs) = let rest = filter p xs in if p x then x ∷ rest else rest

  -- `findFirst`: the first row that passes the test
  abbrev pub find : (A → Bool) → List A → Option A
  find p [] = none
  find p (x ∷ xs) = let rest = find p xs in if p x then some x else rest

  -- `some`: whether a row passes the test
  abbrev pub any : (A → Bool) → List A → Bool
  any p [] = false
  any p (x ∷ xs) = let rest = any p xs in if p x then true else rest

  -- `count({ where })`
  abbrev pub count : (A → Bool) → List A → ℕ
  count p [] = 0
  count p (x ∷ xs) = (if p x then 1 else 0) + count p xs

module _ {ℓ κ} {A : Type ℓ} (P : A → Type κ) where
  abbrev pub All : List A → Type κ
  All [] = Unit
  All (x ∷ xs) = P x × All xs

module _ {ℓ} {A : Type ℓ} where
  pub any_iff :
      (p : A → Bool) (xs : List A) → (any p xs ≡ true) ↔ ((x : A) × Memᴰ x xs × (p x ≡ true))
  any_iff p xs = (into xs, λ (y, m, k). from xs y m k)
    where
      into : (xs : List A) → any p xs ≡ true → (x : A) × Memᴰ x xs × (p x ≡ true)
      into [] e = ground arith
      into (x ∷ xs) e = elim (Bool-cases (p x)) [
        | inl h ↦ (x, Memᴰ.head refl, h)
        | inr h ↦ let (y, m, k) = into xs (rw h at e) in (y, Memᴰ.tail m, k)
      ]

      from : (xs : List A) (y : A) → Memᴰ y xs → p y ≡ true → any p xs ≡ true
      from [] y m k = elim m [ ]
      from (x ∷ xs) y (Memᴰ.head e) k = rw (ap p (sym e) ∙ k) refl
      from (x ∷ xs) y (Memᴰ.tail m) k = ground (arith, from xs y m k)

  pub mem-filter :
      (p : A → Bool) (x : A) (xs : List A) → Memᴰ x (filter p xs) ↔ (Memᴰ x xs × (p x ≡ true))
  mem-filter p x xs = (into xs, λ (m, h). from xs m h)
    where
      into : (xs : List A) → Memᴰ x (filter p xs) → Memᴰ x xs × (p x ≡ true)
      into [] m = elim m [ ]
      into (y ∷ ys) m = elim (Bool-cases (p y)) [
        | inl keep ↦ elim (cases_cons (rw keep at m)) [
          | inl e ↦ (Memᴰ.head e, ap p e ∙ keep)
          | inr later ↦ let (n, h) = into ys later in (Memᴰ.tail n, h)
        ]
        | inr drop ↦ let (n, h) = into ys (rw drop at m) in (Memᴰ.tail n, h)
      ]

      from : (xs : List A) → Memᴰ x xs → p x ≡ true → Memᴰ x (filter p xs)
      from [] m h = elim m [ ]
      from (y ∷ ys) (Memᴰ.head e) h = rw (sym (ap p e) ∙ h) (Memᴰ.head e)
      from (y ∷ ys) (Memᴰ.tail m) h = elim (Bool-cases (p y)) [
        | inl keep ↦ rw keep (Memᴰ.tail (from ys m h))
        | inr drop ↦ rw drop (from ys m h)
      ]

  pub any-filter : (p f : A → Bool) (xs : List A) → any p (filter f xs) ≡ any (λ x. f x && p x) xs
  any-filter p f [] = refl
  any-filter p f (x ∷ xs) = ground (arith, any-filter p f xs)

  pub any-or :
      (p q r : A → Bool) (xs : List A)
      → (any p xs || any q xs || any r xs) ≡ any (λ x. p x || q x || r x) xs
  any-or p q r [] = refl
  any-or p q r (x ∷ xs) = ground (arith, any-or p q r xs)

  -- Nothing passes a test that fails everywhere.
  pub filter-false : (p : A → Bool) (xs : List A) → ((x : A) → p x ≡ false) → filter p xs ≡ []
  filter-false p [] h = refl
  filter-false p (x ∷ xs) h = ground (arith, h x, filter-false p xs h)

  pub All-at {κ} : (P : A → Type κ) (x : A) (xs : List A) → All P xs → Memᴰ x xs → P x
  All-at P x [] h m = elim m [ ]
  All-at P x (y ∷ ys) (h, hs) (Memᴰ.head e) = subst P (sym e) h
  All-at P x (y ∷ ys) (h, hs) (Memᴰ.tail m) = All-at P x ys hs m

  pub All-self : (xs all : List A) → ((x : A) → Memᴰ x xs → Memᴰ x all) → All (λ x. Memᴰ x all) xs
  All-self [] all h = tt
  All-self (x ∷ xs) all h = (h x (Memᴰ.head refl), All-self xs all (λ y m. h y (Memᴰ.tail m)))

  pub count-filter-le : (p f : A → Bool) (xs : List A) → count p (filter f xs) ≤ count p xs
  count-filter-le p f [] = omega arith
  count-filter-le p f (x ∷ xs) = ground (arith, count-filter-le p f xs)

  pub count-none : (p : A → Bool) (xs : List A) → any p xs ≡ false → count p xs ≡ 0
  count-none p [] e = refl
  count-none p (x ∷ xs) e = ground (arith, count-none p xs)

module _ {ℓ κ} {A : Type ℓ} where
  pub All-map :
      (P Q : A → Type κ) (f : A → A) (xs : List A)
      → All P xs
      → ((x : A) → Memᴰ x xs → P x → Q (f x))
      → All Q (map f xs)
  All-map P Q f [] h step = tt
  All-map P Q f (x ∷ xs) (h, hs) step =
      (step x (Memᴰ.head refl) h, All-map P Q f xs hs (λ y m. step y (Memᴰ.tail m)))

  pub All-append : (P : A → Type κ) (xs ys : List A) → All P xs → All P ys → All P (xs ++ ys)
  All-append P [] ys h k = k
  All-append P (x ∷ xs) ys (h, hs) k = (h, All-append P xs ys hs k)

  -- What holds of every member holds of all.
  pub All-of : (P : A → Type κ) (xs : List A) → ((x : A) → Memᴰ x xs → P x) → All P xs
  All-of P [] h = tt
  All-of P (x ∷ xs) h = (h x (Memᴰ.head refl), All-of P xs (λ y m. h y (Memᴰ.tail m)))

-- What is found passes the test, and no test that all elements fail.
module _ {ℓ} {A : Type ℓ} where
  pub find-holds : (p : A → Bool) (xs : List A) (x : A) → find p xs ≡ some x → p x ≡ true
  find-holds p [] x e = ground arith
  find-holds p (y ∷ xs) x e = elim (Bool-cases (p y)) [
    | inl h ↦ subst (λ z. p z ≡ true) (some-injective _ _ (rw h at e)) h
    | inr h ↦ find-holds p xs x (rw h at e)
  ]

  pub find-fails :
      (p bad : A → Bool) (xs : List A) (x : A)
      → any bad xs ≡ false
      → find p xs ≡ some x
      → bad x ≡ false
  find-fails p bad [] x none_bad e = ground arith
  find-fails p bad (y ∷ xs) x none_bad e = elim (Bool-cases (p y)) [
    | inl h ↦ subst (λ z. bad z ≡ false) (some-injective _ _ (rw h at e)) (ground arith)
    | inr h ↦ find-fails p bad xs x (ground arith) (rw h at e)
  ]
