-- ===== src/Cost/Schedule/Totals.antt =====
-- cost-schedule.ts: the sums of a schedule against its rows.
use mathlib.Core.Option.{some-injective}
use versi_go.Prelude.{
  ℕ, zero, suc, ◌+◌, ◌^◌, ◌≡◌, refl, sym, ap, ◌∙◌, Bool, true, false, ◌||◌, none, some, List, [],
  ◌∷◌, map, arith, ◌==◌, Bool-cases, filter, sort, insert_sorted, inl, inr, ◌⊎◌, All, All-sort, ◌<◌,
}
use versi_go.Cost.Calendar.{Date}
use versi_go.Cost.Money.{Doubles, Amount, sum_amounts, Sum, amount_of, no_sum, add_amount}
use versi_go.Cost.Money.Sums.{
  cents_in, is_recorded, total_cents, any_recorded, add_amount_lem, sum_amounts_lem,
  to_cents-from_cents, total_cents-append, any_recorded-append,
}
use versi_go.Cost.Entry.{CostEntry}
use versi_go.Cost.Billing.{
  PolicyTerms, BillingPlan, BillingPeriod, incurred, expected, has_started, period_at, Rounds,
  no_rounds, round_of, add_to_year,
}
use versi_go.Cost.Billing.Periods.{indexes, collect, collect-periods, collect-started_amounts}
use versi_go.Cost.Schedule.{PolicySchedule, schedule_of, compute_policy_schedule, earlier_year}
use versi_go.Cost.Schedule.Total.{schedule-collected, collected, plan}

abbrev pub is_incurred : {d : Doubles} → BillingPeriod d → Bool
is_incurred p = elim p.status [ incurred ↦ true | expected ↦ false ]

module _ {d : Doubles} (plan : BillingPlan) (entries : List (CostEntry d)) (as_of : Date) where
  incurred-has_started :
      (i : ℕ) → is_incurred (period_at plan entries as_of i) ≡ has_started plan as_of i
  unfolding period_at
  incurred-has_started i = ground arith

  -- The amounts of the started indexes are those of the incurred rows.
  started_rows :
      (is : List ℕ)
      → map (λ i. (period_at plan entries as_of i).amount) (filter (has_started plan as_of) is)
        ≡ map (λ p. p.amount) (filter is_incurred (map (period_at plan entries as_of) is))
  started_rows [] = refl
  started_rows (i ∷ rest) = elim (Bool-cases (has_started plan as_of i)) [
    | inl started ↦
        rw (incurred-has_started i, started)
          (ap (◌∷◌ (period_at plan entries as_of i).amount) (started_rows rest))
    | inr future ↦ rw (incurred-has_started i, future) (started_rows rest)
  ]

-- The cents and the flags of all years together.
abbrev year_cents : {d : Doubles} → List (ℕ × Sum d) → ℕ
year_cents [] = 0
year_cents ((y, bucket) ∷ rest) = bucket.cents + year_cents rest

abbrev year_recorded : {d : Doubles} → List (ℕ × Sum d) → Bool
year_recorded [] = false
year_recorded ((y, bucket) ∷ rest) = bucket.recorded || year_recorded rest

module _ {d : Doubles} where
  add_to_year_lem :
      (year : ℕ) (amount : Amount d) (years : List (ℕ × Sum d))
      → (year_cents (add_to_year year amount years) ≡ year_cents years + cents_in d amount)
        × (year_recorded (add_to_year year amount years)
            ≡ (year_recorded years || is_recorded d amount))
  unfolding add_to_year
  add_to_year_lem year amount [] = ground (arith, add_amount_lem d (no_sum d) amount)
  add_to_year_lem year amount ((y, bucket) ∷ rest) =
      ground (arith, add_amount_lem d bucket amount, add_to_year_lem year amount rest)

  insert-years :
      (b : ℕ × Sum d) (years : List (ℕ × Sum d))
      → (year_cents (insert_sorted earlier_year b years) ≡ year_cents (b ∷ years))
        × (year_recorded (insert_sorted earlier_year b years) ≡ year_recorded (b ∷ years))
  unfolding insert_sorted
  insert-years b [] = (refl, refl)
  insert-years b (c ∷ years) = ground (arith, insert-years b years)

  sort-years :
      (years : List (ℕ × Sum d))
      → (year_cents (sort earlier_year years) ≡ year_cents years)
        × (year_recorded (sort earlier_year years) ≡ year_recorded years)
  unfolding sort
  sort-years [] = (refl, refl)
  sort-years (b ∷ years) =
      ground (arith, insert-years b (sort earlier_year years), sort-years years)

  -- A bucket without a recorded amount holds no cents.
  abbrev IsSound : ℕ × Sum d → Type 0
  IsSound b = (b.1.recorded ≡ true) ⊎ (b.1.cents ≡ 0)

  add_amount-IsSound :
      (y : ℕ) (bucket : Sum d) (amount : Amount d)
      → IsSound (y, bucket)
      → IsSound (y, add_amount d bucket amount)
  unfolding add_amount
  add_amount-IsSound y bucket none h = h
  add_amount-IsSound y bucket (some value) h = inl refl

  add_to_year-IsSound :
      (year : ℕ) (amount : Amount d) (years : List (ℕ × Sum d))
      → All IsSound years
      → All IsSound (add_to_year year amount years)
  unfolding add_to_year
  add_to_year-IsSound year amount [] h = (add_amount-IsSound year (no_sum d) amount (inr refl), tt)
  add_to_year-IsSound year amount ((y, bucket) ∷ rest) h = elim (Bool-cases (y == year)) [
    | inl same ↦ rw same (add_amount-IsSound y bucket amount h.0, h.1)
    | inr other ↦ rw other (h.0, add_to_year-IsSound year amount rest h.1)
  ]

  abbrev amounts_of : List (ℕ × Sum d) → List (Amount d)
  amounts_of years = map (λ (b : ℕ × Sum d). amount_of d b.1) years

  map_amounts :
      (years : List (ℕ × Sum d))
      → map
          (λ (y : ℕ × Amount d). y.1)
          (map (λ (b : ℕ × Sum d). let y : ℕ × Amount d = (b.0, amount_of d b.1) in y) years)
        ≡ amounts_of years
  map_amounts [] = refl
  map_amounts (b ∷ years) = ap (◌∷◌ (amount_of d b.1)) (map_amounts years)

  -- The amounts shown for the years have the buckets' cents.
  amounts_of_lem :
      (years : List (ℕ × Sum d))
      → All IsSound years
      → year_cents years < 2 ^ 46
      → (total_cents d (amounts_of years) ≡ year_cents years)
        × (any_recorded d (amounts_of years) ≡ year_recorded years)
  amounts_of_lem [] h small = (refl, refl)
  amounts_of_lem ((y, bucket) ∷ rest) h small = ground (
    arith,
    to_cents-from_cents d bucket.cents (omega arith),
    amounts_of_lem rest h.1 (omega arith),
  )

-- The collected years against the collected amounts.
record IsInStep {d : Doubles} (r : Rounds d) : Type 0 where
  cents : year_cents r.per_year_cents ≡ total_cents d r.started_amounts
  recorded : year_recorded r.per_year_cents ≡ any_recorded d r.started_amounts
  sound : All IsSound r.per_year_cents

module _ {d : Doubles} (plan : BillingPlan) (entries : List (CostEntry d))
    (as_of horizon : Date) where
  round_of-IsInStep :
      (index : ℕ) (r : Rounds d)
      → IsInStep r
      → IsInStep (round_of plan entries as_of horizon index r)
  unfolding round_of
  round_of-IsInStep index r h = elim (Bool-cases (has_started plan as_of index)) [
    | inl started ↦
        let period = period_at plan entries as_of index in
        let (cents, recorded) = add_to_year_lem period.label_year period.amount r.per_year_cents in
        rw started (record {
          cents =
              ground (
                arith,
                h.cents,
                cents,
                total_cents-append d r.started_amounts (period.amount ∷ []),
              );
          recorded = ground (
            arith,
            h.recorded,
            recorded,
            any_recorded-append d r.started_amounts (period.amount ∷ []),
          );
          sound = add_to_year-IsSound period.label_year period.amount r.per_year_cents h.sound;
        })
    | inr future ↦ rw future (record { cents = h.cents; recorded = h.recorded; sound = h.sound })
  ]

  collect-IsInStep :
      (n index : ℕ) (r : Rounds d)
      → IsInStep r
      → IsInStep (collect plan entries as_of horizon n index r)
  unfolding collect
  collect-IsInStep zero index r h = h
  collect-IsInStep (suc n) index r h =
      collect-IsInStep n (suc index) (round_of plan entries as_of horizon index r)
        (round_of-IsInStep index r h)

module _ {d : Doubles} (policy : PolicyTerms) (e : CostEntry d) (more : List (CostEntry d))
    (as_of horizon : Date) (schedule : PolicySchedule d)
    (made : compute_policy_schedule policy (e ∷ more) as_of horizon ≡ some schedule) where
  started_amounts-eq :
      (n : ℕ)
      → (collected policy e more as_of horizon n).started_amounts
        ≡ map (λ p. p.amount) (filter is_incurred (collected policy e more as_of horizon n).periods)
  started_amounts-eq n =
      let the_plan = plan policy e more as_of horizon in
      collect-started_amounts the_plan (e ∷ more) as_of horizon n 0 no_rounds
      ∙ started_rows the_plan (e ∷ more) as_of (indexes 0 n)
      ∙ ap (λ ps. map (λ (p : BillingPeriod d). p.amount) (filter is_incurred ps))
          (sym (collect-periods the_plan (e ∷ more) as_of horizon n 0 no_rounds))

  -- What has been paid to date is the sum of the amounts of exactly those rows of the schedule that
  -- are marked as incurred.
  pub paid_to_date_lem :
      schedule.paid_to_date
      ≡ sum_amounts d (map (λ p. p.amount) (filter is_incurred schedule.periods))
  unfolding schedule_of
  paid_to_date_lem =
      let (n, from, up, rows) = schedule-collected policy e more as_of horizon in
      let same = some-injective _ _ (sym from ∙ made) in
      rw (← same) (ap (sum_amounts d) (started_amounts-eq n))

  -- While the sum stays below 2^46 cents, the amounts of the calendar years add up to what has been
  -- paid to date.
  pub per_year_lem :
      total_cents d (map (λ p. p.amount) (filter is_incurred schedule.periods)) < 2 ^ 46
      → sum_amounts d (map (λ y. y.1) schedule.per_year) ≡ schedule.paid_to_date
  unfolding schedule_of
  per_year_lem small =
      let (n, from, up, rows) = schedule-collected policy e more as_of horizon in
      let same = some-injective _ _ (sym from ∙ made) in
      let r = collected policy e more as_of horizon n in
      let step =
        collect-IsInStep (plan policy e more as_of horizon) (e ∷ more) as_of horizon n 0 no_rounds
          (record { cents = refl; recorded = refl; sound = tt }) in
      let (sorted_cents, sorted_recorded) = sort-years r.per_year_cents in
      let sum_started : total_cents d r.started_amounts
          ≡ total_cents d (map (λ p. p.amount) (filter is_incurred schedule.periods)) =
        rw (← same) (ap (total_cents d) (started_amounts-eq n)) in
      let (cents, recorded) =
        amounts_of_lem (sort earlier_year r.per_year_cents)
          (All-sort earlier_year IsSound r.per_year_cents step.sound)
          (omega (arith, sum_started, step.cents)) in
      rw (← same) (
        ap (sum_amounts d) (map_amounts (sort earlier_year r.per_year_cents))
        ∙ sum_amounts_lem d (amounts_of (sort earlier_year r.per_year_cents))
        ∙ rw (cents ∙ sorted_cents ∙ step.cents, recorded ∙ sorted_recorded ∙ step.recorded)
            (sym (sum_amounts_lem d r.started_amounts)))
