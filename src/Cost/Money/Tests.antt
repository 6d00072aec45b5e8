-- ===== src/Cost/Money/Tests.antt =====
-- cost-schedule.ts: sums at concrete amounts.
use versi_go.Prelude.{◌≡◌, refl, none, some, List, [], ◌∷◌}
use versi_go.Cost.Money.{
  Amount, to_cents, from_cents, add_amount, add_amounts, sum_amounts, round_money,
}
use versi_go.Cost.Money.Exact.{exact}
use versi_go.Cost.Money.Sums.{concat, total_cents}

sums : Unit {0}
unfolding sum_amounts add_amounts add_amount to_cents from_cents round_money
sums = tt

-- 12.34, 0.66 and nothing, for two policies.
abbrev policies : List (List (Amount exact))
policies =
    (some (record { top = 1234; bottom = 100 }) ∷ none ∷ [])
    ∷ (some (record { top = 66; bottom = 100 }) ∷ [])
    ∷ (none ∷ [])
    ∷ []

runs :
    (sum_amounts exact (none ∷ none ∷ []) ≡ none)
    × (sum_amounts exact (concat policies) ≡ some (record { top = 1300; bottom = 100 }))
    × (total_cents exact (concat policies) ≡ 1300)
unfolding sums
runs = (refl, refl, refl)
