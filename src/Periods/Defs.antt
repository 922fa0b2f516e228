-- ===== src/Periods/Defs.antt =====
-- The definitions of internal/domain/lease/billing.go. A loop recurs on fuel: at 0 it stops as if
-- its test had failed, and the proofs in the sibling modules show that the fuel given never runs
-- out. The cadences are the strings of internal/domain/lease/aggregate.go.
use stds_backend_go.Prelude.{
  ℕ, zero, suc, ◌+◌, ◌-◌, ◌%◌, ◌||◌, String, List, [], ◌∷◌, ltb, eqb, ◌==◌, if◌then◌else◌, Result,
  ok, err,
}
use stds_backend_go.GoTime.{Date, Time, before, after, next_day, prev_day, go_date, key}

abbrev pub cadence_monthly : String
cadence_monthly = "monthly"

abbrev pub cadence_bimonthly : String
cadence_bimonthly = "bimonthly"

abbrev pub cadence_quarterly : String
cadence_quarterly = "quarterly"

abbrev pub cadence_semiannual : String
cadence_semiannual = "semiannual"

abbrev pub cadence_annual : String
cadence_annual = "annual"

pub record Period : Type 0 where
  pub period_start : Date
  pub period_end : Date
  pub due_date : Date

pub data PeriodError : Type 0 where
  invalid_date_range invalid_billing_anchor : PeriodError
  invalid_electricity_cadence invalid_rent_cadence : PeriodError

-- `normalizeDate` drops the clock; what it returns is used as a date alone.
abbrev pub normalize_date : Time → Date
normalize_date value = value.date

unfoldable pub clamped_month_date : ℕ → ℕ → ℕ → Date
clamped_month_date year month day =
    let first_of_next_month = go_date year (month + 1) 1 in
    let last_day = (prev_day first_of_next_month).day in
    go_date year month (if ltb last_day day then last_day else day)

-- The loop that `buildAnchoredPeriods`, `buildMonthlyPeriods` and `buildNaturalBimonthlyPeriods`
-- share: `last` is the last day of the period that starts on a day, before it is cut at `final_end`,
-- `due` its due date, and `next` the day on which the next period starts.
unfoldable pub period_loop :
    (Date → Date) → (Date → Date) → (Date → Date) → Date → ℕ → Date → List Period
period_loop last due next final_end zero current_start = []
period_loop last due next final_end (suc fuel) current_start =
    let rest = period_loop last due next final_end fuel (next current_start) in
    let period_end = last current_start in
    if before final_end current_start
    then []
    else record {
      period_start = current_start;
      period_end = if before final_end period_end then final_end else period_end;
      due_date = due current_start;
    }
      ∷ rest

-- The number of rounds is at most the number of days: a round moves `current_start` on.
abbrev pub rounds : Date → ℕ
rounds final_end = suc (key final_end)

abbrev pub anchored_next : ℕ → ℕ → Date → Date
anchored_next month_step anchor_day d = clamped_month_date d.year (d.month + month_step) anchor_day

unfoldable pub build_anchored_periods : Date → Date → ℕ → ℕ → List Period
unfolding period_loop
build_anchored_periods start_date end_date month_step anchor_day =
    let next = anchored_next month_step anchor_day in
    period_loop (λ d. prev_day (next d)) (λ d. d) next end_date (rounds end_date) start_date

abbrev pub anchored_due : ℕ → Date → Date
anchored_due anchor_day d = clamped_month_date d.year d.month anchor_day

unfoldable pub build_monthly_periods : Date → Date → ℕ → List Period
unfolding period_loop
build_monthly_periods start_date end_date anchor_day =
    let next = anchored_next 1 anchor_day in
    period_loop (λ d. prev_day (next d)) (anchored_due anchor_day) next end_date (rounds end_date)
      start_date

-- The last day of the natural window (January and February, March and April, ...) of a day.
unfoldable pub window_end : Date → Date
window_end d =
    let window_start_month = if eqb (d.month % 2) 0 then d.month - 1 else d.month in
    let window_start = go_date d.year window_start_month 1 in
    prev_day (clamped_month_date window_start.year (window_start_month + 2) 1)

unfoldable pub build_natural_bimonthly_periods : Date → Date → ℕ → List Period
unfolding period_loop
build_natural_bimonthly_periods start_date end_date anchor_day =
    period_loop window_end (anchored_due anchor_day) (λ d. next_day (window_end d)) end_date
      (rounds end_date) start_date

unfoldable pub build_billing_periods : Time → Time → String → Result PeriodError (List Period)
build_billing_periods start_date end_date cadence =
    let first = normalize_date start_date in
    let final = normalize_date end_date in
    let anchor_day = first.day in
    if after start_date end_date
    then err invalid_date_range
    else if cadence == cadence_monthly
    then ok (build_monthly_periods first final anchor_day)
    else if cadence == cadence_bimonthly
    then ok (build_natural_bimonthly_periods first final anchor_day)
    else err invalid_electricity_cadence

unfoldable pub build_rent_billing_periods_from_anchor :
    Time → Time → String → ℕ → Result PeriodError (List Period)
build_rent_billing_periods_from_anchor start_date end_date cadence anchor_day =
    let build = build_anchored_periods (normalize_date start_date) (normalize_date end_date) in
    if after start_date end_date
    then err invalid_date_range
    else if ltb anchor_day 1 || ltb 31 anchor_day
    then err invalid_billing_anchor
    else if cadence == cadence_monthly
    then ok (build 1 anchor_day)
    else if cadence == cadence_quarterly
    then ok (build 3 anchor_day)
    else if cadence == cadence_semiannual
    then ok (build 6 anchor_day)
    else if cadence == cadence_annual
    then ok (build 12 anchor_day)
    else err invalid_rent_cadence

unfoldable pub build_rent_billing_periods : Time → Time → String → Result PeriodError (List Period)
unfolding build_rent_billing_periods_from_anchor
build_rent_billing_periods start_date end_date cadence =
    build_rent_billing_periods_from_anchor start_date end_date cadence
      (normalize_date start_date).day

unfoldable pub build_monthly_billing_periods_from_anchor :
    Time → Time → ℕ → Result PeriodError (List Period)
build_monthly_billing_periods_from_anchor start_date end_date anchor_day =
    if after start_date end_date
    then err invalid_date_range
    else if ltb anchor_day 1 || ltb 31 anchor_day
    then err invalid_billing_anchor
    else ok (build_monthly_periods (normalize_date start_date) (normalize_date end_date) anchor_day)

unfoldable pub rent_cadence_months : String → ℕ
rent_cadence_months cadence =
    if cadence == cadence_monthly
    then 1
    else if cadence == cadence_quarterly
    then 3
    else if cadence == cadence_semiannual
    then 6
    else if cadence == cadence_annual
    then 12
    else 0

-- The loop of `NextRentPaymentDateAfter`.
unfoldable pub payment_loop : ℕ → ℕ → Date → ℕ → Date → Date
payment_loop months anchor_day operation_date zero candidate = candidate
payment_loop months anchor_day operation_date (suc fuel) candidate =
    let later =
      payment_loop months anchor_day operation_date fuel
        (anchored_next months anchor_day candidate) in
    if before operation_date candidate then candidate else later

unfoldable pub next_rent_payment_date_after : Time → Time → String → Date
unfolding payment_loop rent_cadence_months
next_rent_payment_date_after lease_start operation_date cadence =
    let cadence_months = rent_cadence_months cadence in
    let months = if eqb cadence_months 0 then 1 else cadence_months in
    let start = normalize_date lease_start in
    let operation = normalize_date operation_date in
    payment_loop months start.day operation (rounds operation) start

unfoldable pub next_payment_date_after : Time → Time → Date
unfolding next_rent_payment_date_after
next_payment_date_after lease_start operation_date =
    next_rent_payment_date_after lease_start operation_date cadence_monthly
