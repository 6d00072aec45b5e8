-- ===== src/Cost/Billing/Periods.antt =====
-- cost-schedule.ts: the loop enumerates the billing periods up to the horizon, without gaps.
use mathlib.Core.List.{append_assoc, append-nil}
use versi_go.Prelude.{
  ℕ, zero, suc, ◌+◌, ◌*◌, ◌/◌, ◌≤◌, ◌<◌, ◌≡◌, sym, ap, ◌∙◌, inl, inr, some, List, [], ◌∷◌, ◌++◌,
  arith, map, ltb, Bool-cases, filter, All,
}
use versi_go.Cost.Calendar.{Date, ms_per_day, add_months_clamped}
use versi_go.Cost.Calendar.Months.{add_months_clamped-suc}
use versi_go.Cost.Money.{Doubles}
use versi_go.Cost.Entry.{CostEntry}
use versi_go.Cost.Billing.{BillingPlan, start_of, has_started, period_at, Rounds, round_of, rounds}

-- `n` months later are at least `n` times four weeks later.
add_months-grows :
    (date : Date) (months n : ℕ)
    → add_months_clamped date months + n * (28 * ms_per_day) ≤ add_months_clamped date (n + months)
add_months-grows date months zero = let e : 0 + months ≡ months = omega arith in rw e (omega arith)
add_months-grows date months (suc n) =
    let e : suc n + months ≡ suc (n + months) = omega arith in
    rw e (omega (arith, add_months-grows date months n, add_months_clamped-suc date (n + months)))

-- The indexes from `first` on, `n` of them.
abbrev pub indexes : ℕ → ℕ → List ℕ
indexes first zero = []
indexes first (suc n) = first ∷ indexes (suc first) n

module _ (plan : BillingPlan) (steps : 1 ≤ plan.step_months) where
  -- A period begins at least four weeks before the next one.
  pub start_of-suc : (index : ℕ) → start_of plan index + 28 * ms_per_day ≤ start_of plan (suc index)
  unfolding start_of
  start_of-suc index =
      let e : plan.step_months + index * plan.step_months ≡ suc index * plan.step_months =
        omega arith in
      rw (← e) (
        omega (
          arith,
          add_months-grows plan.anchor (index * plan.step_months) plan.step_months,
          more_steps,
        ))
    where
      more_steps : 28 * ms_per_day ≤ plan.step_months * (28 * ms_per_day)
      more_steps = omega arith

  pub start_of-grows : (index : ℕ) → index * (28 * ms_per_day) ≤ start_of plan index
  start_of-grows zero = omega arith
  start_of-grows (suc index) = omega (arith, start_of-grows index, start_of-suc index)

module _ {d : Doubles} (plan : BillingPlan) (entries : List (CostEntry d))
    (as_of horizon : Date) where
  -- The loop's body, for `n` indexes from `index` on.
  unfoldable pub collect : ℕ → ℕ → Rounds d → Rounds d
  collect zero index r = r
  collect (suc n) index r = collect n (suc index) (round_of plan entries as_of horizon index r)

  -- The indexes that are reached, and no more: each of these periods begins up to the horizon, and
  -- the next one behind it.
  abbrev pub IsUpTo : ℕ → ℕ → Type 0
  IsUpTo index n =
      All (λ i. start_of plan i ≤ horizon) (indexes index n) × (horizon < start_of plan (n + index))

  -- With enough fuel the loop ends, behind all periods up to the horizon.
  pub rounds-total :
      (steps : 1 ≤ plan.step_months) (fuel index : ℕ) (r : Rounds d)
      → horizon / (28 * ms_per_day) + 2 ≤ fuel + index
      → 1 ≤ fuel
      → (n : ℕ) × (rounds plan entries as_of horizon fuel index r ≡ some (collect n index r))
        × IsUpTo index n
  unfolding rounds collect
  rounds-total steps zero index r h k = absurd (omega arith)
  rounds-total steps (suc fuel) index r h k =
      elim (Bool-cases (ltb horizon (start_of plan index))) [
        | inl over ↦ (0, rw over, (tt, ground arith))
        | inr within ↦
            let inside : start_of plan index ≤ horizon = ground arith in
            let (n, ends, up) =
              rounds-total steps fuel (suc index) (round_of plan entries as_of horizon index r)
                (omega arith) (omega (arith, start_of-grows plan steps index)) in
            let e : n + suc index ≡ suc n + index = omega arith in
            (suc n, rw within ends, ((inside, up.0), rw (← e) up.1))
      ]

  periods-round_of :
      (index : ℕ) (r : Rounds d)
      → (round_of plan entries as_of horizon index r).periods
        ≡ r.periods ++ period_at plan entries as_of index ∷ []
  unfolding round_of
  periods-round_of index r = ground arith

  -- The rows are those of the indexes, in order.
  pub collect-periods :
      (n index : ℕ) (r : Rounds d)
      → (collect n index r).periods
        ≡ r.periods ++ map (period_at plan entries as_of) (indexes index n)
  unfolding collect round_of
  collect-periods zero index r = sym (append-nil r.periods)
  collect-periods (suc n) index r =
      collect-periods n (suc index) (round_of plan entries as_of horizon index r)
      ∙ ap (λ ps. ps ++ map (period_at plan entries as_of) (indexes (suc index) n))
          (periods-round_of index r)
      ∙ append_assoc r.periods (period_at plan entries as_of index ∷ [])
          (map (period_at plan entries as_of) (indexes (suc index) n))

  -- The amounts are those of the periods that have started.
  pub collect-started_amounts :
      (n index : ℕ) (r : Rounds d)
      → (collect n index r).started_amounts
        ≡ r.started_amounts
          ++ map
              (λ i. (period_at plan entries as_of i).amount)
              (filter (has_started plan as_of) (indexes index n))
  unfolding collect round_of
  collect-started_amounts zero index r = sym (append-nil r.started_amounts)
  collect-started_amounts (suc n) index r = elim (Bool-cases (has_started plan as_of index)) [
    | inl started ↦
        let later =
          map (λ i. (period_at plan entries as_of i).amount)
            (filter (has_started plan as_of) (indexes (suc index) n)) in
        collect-started_amounts n (suc index) (round_of plan entries as_of horizon index r)
        ∙ rw started (
            append_assoc r.started_amounts ((period_at plan entries as_of index).amount ∷ []) later)
    | inr future ↦
        collect-started_amounts n (suc index) (round_of plan entries as_of horizon index r)
        ∙ rw future
  ]
