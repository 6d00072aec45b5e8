-- ===== src/Cost/Entry.antt =====
-- cost-schedule.ts: cost entries, the amount that one contributes to a billing period, and the choice
-- of the entry that counts at a moment. `Number(entry.amount)` has been applied to the column.
pub mod Choice
use versi_go.Prelude.{
  ℕ, ◌+◌, ◌-◌, Text, Bool, true, false, not, ◌&&◌, ◌||◌, Option, none, some, List, [], ◌∷◌, leb,
  ltb, ◌==◌, if◌then◌else◌, filter, sort, head?, min,
}
use versi_go.Cost.Calendar.{Date}
use versi_go.Cost.Money.{Doubles, Amount, round_money}

pub data PaymentFrequency : Type 0 where
  monthly quarterly semi_annual annual : PaymentFrequency

abbrev pub frequency_months : PaymentFrequency → ℕ
frequency_months monthly = 1
frequency_months quarterly = 3
frequency_months semi_annual = 6
frequency_months annual = 12

abbrev pub frequency_per_year : PaymentFrequency → ℕ
frequency_per_year monthly = 12
frequency_per_year quarterly = 4
frequency_per_year semi_annual = 2
frequency_per_year annual = 1

module _ (d : Doubles) where
  open d use {Num, of_nat, mul, div}

  pub record CostEntry : Type 0 where
    pub id : Text
    pub created_at : Option Date
    pub amount : Amount d
    pub frequency : PaymentFrequency
    pub valid_from : Date
    pub valid_to : Option Date

-- `!e.validTo || e.validTo.getTime() >= moment`
abbrev pub not_ended : Option Date → Date → Bool
not_ended none moment = true
not_ended (some valid_to) moment = leb moment valid_to

module _ {d : Doubles} where
  open d use {of_nat, mul, div}

  unfoldable pub period_amount : CostEntry d → PaymentFrequency → Amount d
  period_amount entry step_frequency = elim entry.amount [
    | none ↦ none
    | some amount ↦
        let step_months = frequency_months step_frequency in
        let entry_months = frequency_months entry.frequency in
        let factor =
          if step_months == entry_months
          then of_nat 1
          else div (of_nat step_months) (of_nat entry_months) in
        some (round_money d (mul amount factor))
  ]

  -- `Math.min` over the candidates; absent where there is none.
  abbrev pub earliest : Option Date → List (CostEntry d) → Option Date
  earliest least [] = least
  earliest none (e ∷ rest) = earliest (some e.valid_from) rest
  earliest (some date) (e ∷ rest) = earliest (some (min date e.valid_from)) rest

  unfoldable pub resolve_cost_anchor : Option Date → List (CostEntry d) → Option Date
  resolve_cost_anchor policy_start_date entries = earliest policy_start_date entries

  abbrev pub is_valid_at : Date → CostEntry d → Bool
  is_valid_at moment e = leb e.valid_from moment && not_ended e.valid_to moment

  abbrev pub created : CostEntry d → ℕ
  created e = elim e.created_at [ none ↦ 0 | some date ↦ date ]

  -- The comparator puts `a` in front of `b`: the later `validFrom`, then the later creation.
  unfoldable pub is_newer : CostEntry d → CostEntry d → Bool
  is_newer a b =
      ltb b.valid_from a.valid_from
      || ((a.valid_from == b.valid_from) && ltb (created b) (created a))

  unfoldable pub entry_for_period : List (CostEntry d) → Date → Option (CostEntry d)
  unfolding is_newer sort
  entry_for_period entries period_start =
      head? (sort is_newer (filter (is_valid_at period_start) entries))

  abbrev pub last_entry : List (CostEntry d) → Option (CostEntry d)
  last_entry [] = none
  last_entry (e ∷ []) = some e
  last_entry (e ∷ f ∷ rest) = last_entry (f ∷ rest)

  abbrev pub or_else : Option (CostEntry d) → Option (CostEntry d) → Option (CostEntry d)
  or_else (some e) other = some e
  or_else none other = other

  -- `null` for no entries; otherwise the entry that is valid now, or the last of the list.
  unfoldable pub select_active_or_latest_entry : List (CostEntry d) → Date → Option (CostEntry d)
  unfolding is_newer sort
  select_active_or_latest_entry entries now =
      or_else (head? (sort is_newer (filter (is_valid_at now) entries))) (last_entry entries)
