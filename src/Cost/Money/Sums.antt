-- ===== src/Cost/Money/Sums.antt =====
-- cost-schedule.ts: sums of amounts in cents.
use versi_go.Prelude.{
  ℕ, ◌+◌, ◌^◌, ◌<◌, ◌≡◌, refl, sym, ap, ◌∙◌, Bool, true, false, ◌||◌, none, some, List, [], ◌∷◌,
  ◌++◌, map, arith, if◌then◌else◌,
}
use versi_go.Cost.Money.{
  Doubles, Amount, to_cents, from_cents, Sum, add_amount, add_amounts, no_sum, sum_amounts,
}

abbrev pub concat {ℓ} : {A : Type ℓ} → List (List A) → List A
concat [] = []
concat (xs ∷ rest) = xs ++ concat rest

module _ (d : Doubles) where
  -- What an amount adds to a sum, and whether it is recorded.
  abbrev pub cents_in : Amount d → ℕ
  cents_in none = 0
  cents_in (some value) = to_cents d value

  abbrev pub is_recorded : Amount d → Bool
  is_recorded none = false
  is_recorded (some value) = true

  abbrev pub total_cents : List (Amount d) → ℕ
  total_cents [] = 0
  total_cents (value ∷ rest) = cents_in value + total_cents rest

  abbrev pub any_recorded : List (Amount d) → Bool
  any_recorded [] = false
  any_recorded (value ∷ rest) = is_recorded value || any_recorded rest

  pub add_amount_lem :
      (s : Sum d) (value : Amount d)
      → ((add_amount d s value).cents ≡ s.cents + cents_in value)
        × ((add_amount d s value).recorded ≡ (s.recorded || is_recorded value))
  unfolding add_amount
  add_amount_lem s none = ground arith
  add_amount_lem s (some value) = ground arith

  add_amounts_lem :
      (s : Sum d) (values : List (Amount d))
      → ((add_amounts d s values).cents ≡ s.cents + total_cents values)
        × ((add_amounts d s values).recorded ≡ (s.recorded || any_recorded values))
  unfolding add_amounts
  add_amounts_lem s [] = ground arith
  add_amounts_lem s (value ∷ rest) =
      ground (arith, add_amount_lem s value, add_amounts_lem (add_amount d s value) rest)

  -- A sum is absent exactly where nothing is recorded, and otherwise the sum of the cents.
  pub sum_amounts_lem :
      (values : List (Amount d))
      → sum_amounts d values
        ≡ (if any_recorded values then some (from_cents d (total_cents values)) else none)
  unfolding sum_amounts
  sum_amounts_lem values = ground (arith, add_amounts_lem (no_sum d) values)

  -- Whole cents survive the way to an amount and back.
  pub to_cents-from_cents : (cents : ℕ) → cents < 2 ^ 46 → to_cents d (from_cents d cents) ≡ cents
  unfolding to_cents from_cents
  to_cents-from_cents cents h =
      ap (λ n. d.round (d.mul (d.div (d.of_nat n) (d.of_nat 100)) (d.of_nat 100)))
        (d.round-of_nat cents (omega arith))
      ∙ d.round-hundredths cents h

  nothing_recorded :
      (values : List (Amount d)) → any_recorded values ≡ false → total_cents values ≡ 0
  nothing_recorded [] h = refl
  nothing_recorded (none ∷ rest) h = ground (arith, nothing_recorded rest)
  nothing_recorded (some value ∷ rest) h = cc

  pub cents_in-sum_amounts :
      (values : List (Amount d))
      → total_cents values < 2 ^ 46
      → (cents_in (sum_amounts d values) ≡ total_cents values)
        × (is_recorded (sum_amounts d values) ≡ any_recorded values)
  cents_in-sum_amounts values h = ground (
    arith,
    sum_amounts_lem values,
    nothing_recorded values,
    to_cents-from_cents (total_cents values) h,
  )

  pub total_cents-append :
      (xs ys : List (Amount d)) → total_cents (xs ++ ys) ≡ total_cents xs + total_cents ys
  total_cents-append [] ys = omega arith
  total_cents-append (x ∷ xs) ys = omega (arith, total_cents-append xs ys)

  pub any_recorded-append :
      (xs ys : List (Amount d)) → any_recorded (xs ++ ys) ≡ (any_recorded xs || any_recorded ys)
  any_recorded-append [] ys = ground arith
  any_recorded-append (x ∷ xs) ys = ground (arith, any_recorded-append xs ys)

  groups_lem :
      (groups : List (List (Amount d)))
      → total_cents (concat groups) < 2 ^ 46
      → (total_cents (map (sum_amounts d) groups) ≡ total_cents (concat groups))
        × (any_recorded (map (sum_amounts d) groups) ≡ any_recorded (concat groups))
  groups_lem [] h = (refl, refl)
  groups_lem (g ∷ rest) h =
      let split = total_cents-append g (concat rest) in
      let (cents, recorded) = cents_in-sum_amounts g (omega arith) in
      let (later_cents, later_recorded) = groups_lem rest (omega arith) in
      (omega arith, rw (recorded, later_recorded) (sym (any_recorded-append g (concat rest))))

  -- While the total stays below 2^46 cents, summing groups of amounts first and then the groups' sums
  -- gives what summing all amounts at once gives, the absent sum included: nothing is lost to
  -- rounding between a policy, a year and the household.
  pub sum_amounts-concat :
      (groups : List (List (Amount d)))
      → total_cents (concat groups) < 2 ^ 46
      → sum_amounts d (map (sum_amounts d) groups) ≡ sum_amounts d (concat groups)
  sum_amounts-concat groups h =
      let (cents, recorded) = groups_lem groups h in
      sum_amounts_lem (map (sum_amounts d) groups)
      ∙ rw (cents, recorded) (sym (sum_amounts_lem (concat groups)))
