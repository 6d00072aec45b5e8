-- ===== src/Cost/Schedule/Total.antt =====
-- cost-schedule.ts: every policy with an entry has a schedule, with all its periods.
use versi_go.Prelude.{ℕ, suc, ◌+◌, ◌*◌, ◌≤◌, ◌<◌, ◌≡◌, some, List, ◌∷◌, map, arith, All}
use versi_go.Cost.Calendar.{Date, ms_per_day}
use versi_go.Cost.Money.{Doubles}
use versi_go.Cost.Entry.{
  PaymentFrequency, monthly, quarterly, semi_annual, annual, frequency_months, CostEntry,
  select_active_or_latest_entry,
}
use versi_go.Cost.Billing.{
  PolicyTerms, BillingPlan, start_of, period_at, resolve_billing, Rounds, no_rounds,
}
use versi_go.Cost.Billing.Periods.{
  indexes, collect, IsUpTo, rounds-total, collect-periods, start_of-suc,
}
use versi_go.Cost.Schedule.{PolicySchedule, enough_rounds, schedule_of, compute_policy_schedule}

frequency_months-pos : (frequency : PaymentFrequency) → 1 ≤ frequency_months frequency
frequency_months-pos monthly = omega arith
frequency_months-pos quarterly = omega arith
frequency_months-pos semi_annual = omega arith
frequency_months-pos annual = omega arith

module _ {d : Doubles} (policy : PolicyTerms) (e : CostEntry d) (more : List (CostEntry d))
    (as_of horizon : Date) where
  abbrev pub plan : BillingPlan
  plan = resolve_billing policy (e ∷ more) as_of

  pub step_months-pos : 1 ≤ plan.step_months
  unfolding resolve_billing
  step_months-pos = frequency_months-pos _

  -- What the loop collects over the first `n` periods.
  abbrev pub collected : ℕ → Rounds d
  collected n = collect plan (e ∷ more) as_of horizon n 0 no_rounds

  -- The schedule is made from so many collected periods.
  pub schedule-collected :
      (n : ℕ) × (compute_policy_schedule policy (e ∷ more) as_of horizon
        ≡ some (schedule_of plan (select_active_or_latest_entry (e ∷ more) as_of) (collected n)))
      × IsUpTo plan (e ∷ more) as_of horizon 0 n
      × ((collected n).periods ≡ map (period_at plan (e ∷ more) as_of) (indexes 0 n))
  unfolding compute_policy_schedule
  schedule-collected =
      let (n, ends, up) =
        rounds-total plan (e ∷ more) as_of horizon step_months-pos (enough_rounds horizon) 0
          no_rounds (omega arith) (omega arith) in
      (n, rw ends, up, collect-periods plan (e ∷ more) as_of horizon n 0 no_rounds)

  -- For a policy with at least one entry the loop ends and the schedule exists: its rows are the
  -- periods numbered from 0, one after the other; each begins by the horizon, and the next one after
  -- the last row would begin behind it.
  pub schedule-total :
      (n : ℕ) × (schedule : PolicySchedule d) × (compute_policy_schedule policy
          (e ∷ more)
          as_of
          horizon
        ≡ some schedule)
      × (schedule.periods ≡ map (period_at plan (e ∷ more) as_of) (indexes 0 n))
      × All (λ i. start_of plan i ≤ horizon) (indexes 0 n)
      × (horizon < start_of plan (n + 0))
  unfolding schedule_of
  schedule-total =
      let (n, made, up, rows) = schedule-collected in
      (
        n,
        schedule_of plan (select_active_or_latest_entry (e ∷ more) as_of) (collected n),
        made,
        rows,
        up.0,
        up.1,
      )

  -- Neighbouring periods leave no gap and do not overlap: a period ends in the last millisecond
  -- before the next one begins, and lasts at least four weeks.
  pub periods_meet :
      (index : ℕ)
      → ((period_at plan (e ∷ more) as_of index).period_end + 1
          ≡ (period_at plan (e ∷ more) as_of (suc index)).period_start)
        × ((period_at plan (e ∷ more) as_of index).period_start + 28 * ms_per_day
            ≤ (period_at plan (e ∷ more) as_of (suc index)).period_start)
  unfolding period_at
  periods_meet index = omega (arith, start_of-suc plan step_months-pos index)
