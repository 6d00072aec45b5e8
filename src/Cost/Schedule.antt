-- ===== src/Cost/Schedule.antt =====
-- cost-schedule.ts: the schedule of a policy and its summary.
pub mod Total
pub mod Totals
mod Tests
use versi_go.Prelude.{
  ℕ, zero, suc, ◌+◌, ◌-◌, ◌*◌, ◌/◌, Text, Bool, true, false, Option, none, some, List, [], ◌∷◌,
  ◌++◌, map, leb, ltb, ◌==◌, if◌then◌else◌, sort,
}
use versi_go.Cost.Calendar.{Date, ms_per_day}
use versi_go.Cost.Money.{Doubles, Amount, Sum, amount_of, sum_amounts, round_money}
use versi_go.Cost.Entry.{
  PaymentFrequency, frequency_per_year, CostEntry, select_active_or_latest_entry,
}
use versi_go.Cost.Billing.{
  PolicyTerms, BillingPlan, BillingPeriod, chosen_frequency, resolve_billing, Rounds, no_rounds,
  rounds,
}

-- Every month has at least four weeks, so this many rounds pass the horizon (`schedule-total`).
abbrev pub enough_rounds : Date → ℕ
enough_rounds horizon = horizon / (28 * ms_per_day) + 2

-- `a.year - b.year`
abbrev pub earlier_year : {d : Doubles} → ℕ × Sum d → ℕ × Sum d → Bool
earlier_year a b = ltb a.0 b.0

module _ (d : Doubles) where
  pub record CurrentCosts : Type 0 where
    pub entry_id : Text
    pub frequency : PaymentFrequency
    pub valid_from : Date
    pub valid_to : Option Date
    pub amount : Amount d
    pub annual : Amount d
    pub per_month : Amount d
    pub per_quarter : Amount d
    pub per_year : Amount d

  pub record PolicySchedule : Type 0 where
    pub anchor : Option Date
    pub frequency : PaymentFrequency
    pub paid_to_date : Amount d
    pub current : Option CurrentCosts
    pub periods : List (BillingPeriod d)
    pub per_year : List (ℕ × Amount d)

  pub record PolicyCostSummary : Type 0 where
    pub paid_to_date : Amount d
    pub per_month : Amount d
    pub per_year : Amount d

module _ {d : Doubles} where
  open d use {Num, of_nat, mul, div}

  unfoldable pub current_costs : CostEntry d → CurrentCosts d
  current_costs active =
      let annual : Amount d = elim active.amount [
        | none ↦ none
        | some raw ↦ some (round_money d (mul raw (of_nat (frequency_per_year active.frequency))))
      ] in
      let share : ℕ → Amount d =
        λ n. elim annual [ none ↦ none | some a ↦ some (round_money d (div a (of_nat n))) ] in
      record {
        entry_id = active.id;
        frequency = active.frequency;
        valid_from = active.valid_from;
        valid_to = active.valid_to;
        amount = active.amount;
        annual = annual;
        per_month = share 12;
        per_quarter = share 4;
        per_year = annual;
      }

  abbrev pub current_of : Option (CostEntry d) → Option (CurrentCosts d)
  current_of none = none
  current_of (some active) = some (current_costs active)

  -- The result from what the loop has collected.
  unfoldable pub schedule_of : BillingPlan → Option (CostEntry d) → Rounds d → PolicySchedule d
  schedule_of plan active r = record {
    anchor = some plan.anchor;
    frequency = plan.frequency;
    paid_to_date = sum_amounts d r.started_amounts;
    current = current_of active;
    periods = r.periods;
    per_year =
        map (λ (b : ℕ × Sum d). let y : ℕ × Amount d = (b.0, amount_of d b.1) in y)
          (sort earlier_year r.per_year_cents);
  }

  abbrev pub empty_schedule : PolicyTerms → PolicySchedule d
  empty_schedule policy = record {
    anchor = none;
    frequency = chosen_frequency {d = d} policy.payment_frequency none;
    paid_to_date = none;
    current = none;
    periods = [];
    per_year = [];
  }

  abbrev pub schedule_from :
      BillingPlan → Option (CostEntry d) → Option (Rounds d) → Option (PolicySchedule d)
  schedule_from plan active none = none
  schedule_from plan active (some r) = some (schedule_of plan active r)

  unfoldable pub compute_policy_schedule :
      PolicyTerms → List (CostEntry d) → Date → Date → Option (PolicySchedule d)
  compute_policy_schedule policy [] as_of horizon = some (empty_schedule policy)
  compute_policy_schedule policy (e ∷ more) as_of horizon =
      let plan = resolve_billing policy (e ∷ more) as_of in
      schedule_from plan (select_active_or_latest_entry (e ∷ more) as_of)
        (rounds plan (e ∷ more) as_of horizon (enough_rounds horizon) 0 no_rounds)

  abbrev pub annual_of : Option (CurrentCosts d) → Amount d
  annual_of none = none
  annual_of (some c) = c.annual

  unfoldable pub summary_of : PolicySchedule d → PolicyCostSummary d
  summary_of schedule =
      let annual = annual_of schedule.current in
      record {
        paid_to_date = schedule.paid_to_date;
        per_month = elim annual [ none ↦ none | some a ↦ some (round_money d (div a (of_nat 12))) ];
        per_year = annual;
      }

  unfoldable pub summarize_policy_costs :
      PolicyTerms → List (CostEntry d) → Date → Option (PolicyCostSummary d)
  summarize_policy_costs policy [] as_of =
      some (record { paid_to_date = none; per_month = none; per_year = none })
  summarize_policy_costs policy (e ∷ more) as_of =
      elim (compute_policy_schedule policy (e ∷ more) as_of as_of) [
        | none ↦ none
        | some schedule ↦ some (summary_of schedule)
      ]
