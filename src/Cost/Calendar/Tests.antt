-- ===== src/Cost/Calendar/Tests.antt =====
-- Dates at concrete values, and the property of `addMonthsClamped` at one.
use versi_go.Prelude.{◌≡◌, refl}
use versi_go.Cost.Calendar.{
  Date, month_length, days_before, walk, month_day, at_day, add_months_clamped, get_month,
  get_full_year,
}

calendar : Unit {0}
unfolding add_months_clamped at_day month_day walk days_before month_length get_month get_full_year
calendar = tt

-- 2024-01-31T12:00:00Z
abbrev end_of_january : Date
end_of_january = 1_706_702_400_000

runs :
    (month_day end_of_january ≡ record { month = 648; day = 30 })
    × (get_full_year end_of_january ≡ 2024)
    × (get_month end_of_january ≡ 0)
    -- 29 February, 31 March and 30 April 2024, all from the same anchor
    × (add_months_clamped end_of_january 1 ≡ 1_709_208_000_000)
    × (add_months_clamped end_of_january 2 ≡ 1_711_886_400_000)
    × (add_months_clamped end_of_january 3 ≡ 1_714_478_400_000)
unfolding calendar
runs = (refl, refl, refl, refl, refl, refl)
