-- ===== src/Periods/Tests.antt =====
-- The billing periods at concrete leases.
use stds_backend_go.Prelude.{◌≡◌, refl, inr, false, ◌+◌, ◌*◌, List, [], ◌∷◌, ok, arith}
use stds_backend_go.GoTime.{
  Date, date, Time, IsDate, is_leap, days_in, before, after, go_date, prev_day,
}
use stds_backend_go.Periods.Defs.{
  Period, cadence_monthly, cadence_bimonthly, cadence_quarterly, clamped_month_date,
  build_billing_periods, build_rent_billing_periods, build_rent_billing_periods_from_anchor,
  build_anchored_periods, rent_cadence_months, next_rent_payment_date_after,
}
use stds_backend_go.Periods.Coverage.{
  covering, once_between, rent_periods_cover, electricity_periods_cover,
}
use stds_backend_go.Periods.Anchor.{rent_period_starts, monthly_electricity-eq-rent}
use stds_backend_go.Periods.NextPayment.{IsFirstAfter, next_payment_first}

abbrev jan31 : Time
jan31 = record { date = date 2024 1 31; clock = 0 }

abbrev apr10 : Time
apr10 = record { date = date 2024 4 10; clock = 5 }

abbrev feb29 : Date
feb29 = date 2024 2 29

jan31-IsDate : IsDate jan31.date
unfolding days_in
jan31-IsDate = ground arith

apr10-IsDate : IsDate apr10.date
unfolding days_in
apr10-IsDate = ground arith

feb29-IsDate : IsDate feb29
unfolding days_in is_leap
feb29-IsDate = ground arith

in_order : after jan31 apr10 ≡ false
unfolding after
in_order = refl

abbrev second : Period
second = record { period_start = feb29; period_end = date 2024 3 30; due_date = feb29 }

abbrev three_months : List Period
three_months =
    record { period_start = date 2024 1 31; period_end = date 2024 2 28; due_date = date 2024 1 31 }
    ∷ second
    ∷ record {
      period_start = date 2024 3 31;
      period_end = date 2024 4 10;
      due_date = date 2024 3 31;
    }
    ∷ []

-- A lease from January 31 to April 10 of a leap year.
rent_test : build_rent_billing_periods jan31 apr10 cadence_monthly ≡ ok three_months
unfolding build_rent_billing_periods build_anchored_periods clamped_month_date go_date prev_day
    days_in before after
rent_test = refl

rent_periods_cover_example :
    (ps : List Period) × (build_rent_billing_periods_from_anchor jan31 apr10 cadence_quarterly 31
      ≡ ok ps)
    × (covering feb29 ps ≡ once_between jan31.date apr10.date feb29)
unfolding rent_cadence_months
rent_periods_cover_example =
    rent_periods_cover jan31 apr10 cadence_quarterly 31 feb29 jan31-IsDate apr10-IsDate feb29-IsDate
      in_order (omega arith) (omega arith) (λ e. omega arith)

electricity_periods_cover_example :
    (ps : List Period) × (build_billing_periods jan31 apr10 cadence_bimonthly ≡ ok ps)
    × (covering feb29 ps ≡ once_between jan31.date apr10.date feb29)
electricity_periods_cover_example =
    electricity_periods_cover jan31 apr10 cadence_bimonthly feb29 jan31-IsDate apr10-IsDate
      feb29-IsDate in_order (inr refl)

rent_period_starts_example :
    (second.period_start ≡ clamped_month_date 2024 (1 + 1 * rent_cadence_months cadence_monthly) 31)
    × (second.due_date ≡ second.period_start)
rent_period_starts_example =
    rent_period_starts jan31 apr10 cadence_monthly 1 {ps = three_months} {p = second} jan31-IsDate
      rent_test refl

monthly_electricity-eq-rent_example :
    build_billing_periods jan31 apr10 cadence_monthly
    ≡ build_rent_billing_periods jan31 apr10 cadence_monthly
monthly_electricity-eq-rent_example = monthly_electricity-eq-rent jan31 apr10 jan31-IsDate

next_payment_first_example :
    IsFirstAfter apr10.date
      (λ i. clamped_month_date 2024 (1 + i * 3) 31)
      (next_rent_payment_date_after jan31 apr10 cadence_quarterly)
unfolding rent_cadence_months
next_payment_first_example =
    next_payment_first jan31 apr10 cadence_quarterly jan31-IsDate apr10-IsDate
