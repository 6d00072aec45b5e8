-- ===== src/Cost/Billing.antt =====
-- cost-schedule.ts: the billing plan of a policy and the loop over its billing periods. Texts made from
-- dates (ISO strings, the label of a period) are kept as the dates and numbers that they show.
pub mod Periods
use versi_go.Prelude.{
  ℕ, zero, suc, ◌+◌, ◌-◌, ◌*◌, ◌/◌, Text, Bool, true, false, Option, none, some, List, [], ◌∷◌,
  ◌++◌, map, leb, ltb, ◌==◌, if◌then◌else◌, sort,
}
use versi_go.Cost.Calendar.{Date, ms_per_day, add_months_clamped, get_full_year, get_month}
use versi_go.Cost.Money.{
  Doubles, Amount, Sum, add_amount, no_sum, amount_of, sum_amounts, round_money,
}
use versi_go.Cost.Entry.{
  PaymentFrequency, monthly, quarterly, semi_annual, annual, frequency_months, frequency_per_year,
  CostEntry, period_amount, resolve_cost_anchor, entry_for_period, select_active_or_latest_entry,
}

-- The columns of a policy that billing reads.
pub record PolicyTerms : Type 0 where
  pub start_date : Option Date
  pub payment_frequency : Option PaymentFrequency

pub record BillingPlan : Type 0 where
  pub anchor : Date
  pub frequency : PaymentFrequency
  pub step_months : ℕ

pub data PeriodStatus : Type 0 where
  incurred expected : PeriodStatus

abbrev pub or_date : Option Date → Date → Date
or_date (some date) other = date
or_date none other = other

module _ (d : Doubles) where
  open d use {Num, of_nat, mul, div}

  pub record BillingPeriod : Type 0 where
    pub period_index : ℕ
    pub label_month : ℕ
    pub label_year : ℕ
    pub period_start : Date
    pub period_end : Date
    pub amount : Amount d
    pub status : PeriodStatus
    pub entry_id : Option Text

module _ {d : Doubles} where
  -- `policy.paymentFrequency ?? active?.frequency ?? MONTHLY`
  abbrev pub chosen_frequency : Option PaymentFrequency → Option (CostEntry d) → PaymentFrequency
  chosen_frequency (some frequency) active = frequency
  chosen_frequency none (some active) = active.frequency
  chosen_frequency none none = monthly

  unfoldable pub resolve_billing : PolicyTerms → List (CostEntry d) → Date → BillingPlan
  resolve_billing policy entries as_of =
      let active = select_active_or_latest_entry entries as_of in
      let frequency = chosen_frequency policy.payment_frequency active in
      record {
        anchor = or_date (resolve_cost_anchor policy.start_date entries) as_of;
        frequency = frequency;
        step_months = frequency_months frequency;
      }

  -- `entry ? periodAmount(entry, frequency) : null` and `entry?.id ?? null`
  abbrev pub amount_in : Option (CostEntry d) → PaymentFrequency → Amount d
  amount_in none frequency = none
  amount_in (some entry) frequency = period_amount entry frequency

  abbrev pub id_of : Option (CostEntry d) → Option Text
  id_of none = none
  id_of (some entry) = some entry.id

unfoldable pub start_of : BillingPlan → ℕ → Date
start_of plan index = add_months_clamped plan.anchor (index * plan.step_months)

abbrev pub has_started : BillingPlan → Date → ℕ → Bool
has_started plan as_of index = leb (start_of plan index) as_of

module _ {d : Doubles} (plan : BillingPlan) (entries : List (CostEntry d)) (as_of : Date) where
  -- The row of a period.
  unfoldable pub period_at : ℕ → BillingPeriod d
  period_at index =
      let period_start = start_of plan index in
      let entry = entry_for_period entries period_start in
      record {
        period_index = index;
        label_month = get_month period_start + 1;
        label_year = get_full_year period_start;
        period_start = period_start;
        period_end = start_of plan (suc index) - 1;
        amount = amount_in entry plan.frequency;
        status = if has_started plan as_of index then incurred else expected;
        entry_id = id_of entry;
      }

-- `perYearCents.get(year) ?? { cents: 0, recorded: false }`, the amount put in, and `set`: a new year
-- goes behind the others.
unfoldable pub add_to_year : {d : Doubles} → ℕ → Amount d → List (ℕ × Sum d) → List (ℕ × Sum d)
add_to_year {d} year amount [] = (year, add_amount d (no_sum d) amount) ∷ []
add_to_year {d} year amount ((y, bucket) ∷ rest) =
    let later = add_to_year year amount rest in
    if y == year then (y, add_amount d bucket amount) ∷ rest else (y, bucket) ∷ later

-- What the loop has collected: `periods`, `startedPeriodAmounts` and `perYearCents`.
pub record Rounds (d : Doubles) : Type 0 where
  pub periods : List (BillingPeriod d)
  pub started_amounts : List (Amount d)
  pub per_year_cents : List (ℕ × Sum d)

abbrev pub no_rounds : {d : Doubles} → Rounds d
no_rounds = record { periods = []; started_amounts = []; per_year_cents = [] }

module _ {d : Doubles} (plan : BillingPlan) (entries : List (CostEntry d))
    (as_of horizon : Date) where
  -- The loop's body behind the test that ends it.
  unfoldable pub round_of : ℕ → Rounds d → Rounds d
  round_of index r =
      let period = period_at plan entries as_of index in
      if has_started plan as_of index
      then record {
        periods = r.periods ++ period ∷ [];
        started_amounts = r.started_amounts ++ period.amount ∷ [];
        per_year_cents = add_to_year period.label_year period.amount r.per_year_cents;
      }
      else record r { periods = r.periods ++ period ∷ [] }

  -- `for (;;)`; `none` means that the fuel ran out.
  unfoldable pub rounds : ℕ → ℕ → Rounds d → Option (Rounds d)
  rounds zero index r = none
  rounds (suc fuel) index r =
      let rest = rounds fuel (suc index) (round_of index r) in
      if ltb horizon (start_of plan index) then some r else rest
