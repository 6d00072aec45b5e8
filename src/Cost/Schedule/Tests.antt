-- ===== src/Cost/Schedule/Tests.antt =====
-- cost-schedule.ts: a schedule at concrete entries, and the properties at it.
use versi_go.Prelude.{
  ℕ, ◌+◌, ◌*◌, ◌-◌, ◌≤◌, ◌<◌, ◌≡◌, refl, codes, Option, none, some, List, [], ◌∷◌, map, sort,
  insert_sorted, All, arith,
}
use versi_go.Cost.Calendar.{
  Date, ms_per_day, add_months_clamped, at_day, month_day, walk, days_before, month_length,
  get_month, get_full_year,
}
use versi_go.Cost.Money.{
  Amount, to_cents, from_cents, add_amount, add_amounts, sum_amounts, round_money,
}
use versi_go.Cost.Money.Exact.{exact}
use versi_go.Cost.Entry.{
  monthly, quarterly, CostEntry, period_amount, resolve_cost_anchor, is_newer, entry_for_period,
  select_active_or_latest_entry,
}
use versi_go.Cost.Billing.{
  PolicyTerms, BillingPeriod, start_of, period_at, resolve_billing, add_to_year, round_of, rounds,
}
use versi_go.Cost.Billing.Periods.{indexes}
use versi_go.Cost.Schedule.{
  PolicySchedule, compute_policy_schedule, schedule_of, current_costs, summary_of,
  summarize_policy_costs,
}
use versi_go.Cost.Schedule.Total.{plan, schedule-total}
use versi_go.Cost.Schedule.Totals.{per_year_lem}

costs : Unit {0}
unfolding compute_policy_schedule schedule_of current_costs summary_of summarize_policy_costs rounds
    round_of period_at start_of resolve_billing add_to_year period_amount resolve_cost_anchor
    is_newer entry_for_period select_active_or_latest_entry sort insert_sorted sum_amounts
    add_amounts add_amount to_cents from_cents round_money add_months_clamped at_day month_day walk
    days_before month_length get_month get_full_year
costs = tt

-- 1 December 1970 and 1 March 1971
abbrev december : Date
december = 334 * ms_per_day

abbrev march : Date
march = 424 * ms_per_day

-- 30.00 a quarter from December, 12.50 a month from March.
abbrev first_entry : CostEntry exact
first_entry = record {
  id = codes "a";
  created_at = none;
  amount = some (record { top = 3000; bottom = 100 });
  frequency = quarterly;
  valid_from = december;
  valid_to = some (march - 1);
}

abbrev second_entry : CostEntry exact
second_entry = record {
  id = codes "b";
  created_at = none;
  amount = some (record { top = 1250; bottom = 100 });
  frequency = monthly;
  valid_from = march;
  valid_to = none;
}

abbrev terms : PolicyTerms
terms = record { start_date = some december; payment_frequency = none }

abbrev entries : List (CostEntry exact)
entries = first_entry ∷ second_entry ∷ []

-- As of 10 March, up to 1 May.
abbrev as_of : Date
as_of = march + 9 * ms_per_day

abbrev horizon : Date
horizon = 485 * ms_per_day

abbrev or_empty : Option (PolicySchedule exact) → PolicySchedule exact
or_empty none = record {
  anchor = none;
  frequency = monthly;
  paid_to_date = none;
  current = none;
  periods = [];
  per_year = [];
}
or_empty (some schedule) = schedule

abbrev schedule : PolicySchedule exact
schedule = unfold costs in or_empty (compute_policy_schedule terms entries as_of horizon)

-- December, January, February at 10.00, March at 12.50: 42.50 so far, 10.00 of it in 1970.
runs :
    (schedule.paid_to_date ≡ some (record { top = 4250; bottom = 100 }))
    × (map (λ (y : ℕ × Amount exact). y.0) schedule.per_year ≡ 1970 ∷ 1971 ∷ [])
    × (map (λ (p : BillingPeriod exact). p.label_month) schedule.periods
        ≡ 12 ∷ 1 ∷ 2 ∷ 3 ∷ 4 ∷ 5 ∷ [])
unfolding costs
runs = (refl, refl, refl)

made : compute_policy_schedule terms entries as_of horizon ≡ some schedule
unfolding costs
made = refl

chosen : (entry_for_period entries as_of ≡ some second_entry) × (entry_for_period entries 0 ≡ none)
unfolding costs
chosen = (refl, refl)

schedule-total_example :
    (n : ℕ) × (s : PolicySchedule exact) × (compute_policy_schedule terms entries as_of horizon
      ≡ some s)
    × (s.periods
        ≡ map
            (period_at (plan terms first_entry (second_entry ∷ []) as_of horizon) entries as_of)
            (indexes 0 n))
    × All
        (λ i. start_of (plan terms first_entry (second_entry ∷ []) as_of horizon) i ≤ horizon)
        (indexes 0 n)
    × (horizon < start_of (plan terms first_entry (second_entry ∷ []) as_of horizon) (n + 0))
schedule-total_example = schedule-total terms first_entry (second_entry ∷ []) as_of horizon

per_year_example : sum_amounts exact (map (λ y. y.1) schedule.per_year) ≡ schedule.paid_to_date
unfolding costs
per_year_example =
    per_year_lem terms first_entry (second_entry ∷ []) as_of horizon schedule made (omega arith)
