-- ===== src/Services/Leases/Replace/Boundary.antt =====
-- The tests of a replacement on the bills of the lease (internal/application/lease/replace_lease.go).
use stds_backend_go.Prelude.{
  ◌+◌, Bool, false, not, ◌&&◌, String, List, [], ◌∷◌, ◌==◌, eqb, if◌then◌else◌, Result, ok, err,
}
use stds_backend_go.GoTime.{Date, before, next_day, go_date}
use stds_backend_go.Periods.Defs.{
  Period, PeriodError, build_rent_billing_periods_from_anchor,
  build_monthly_billing_periods_from_anchor, build_billing_periods, cadence_monthly,
}
use stds_backend_go.Bill.Defs.{type_rent, type_electricity, status_paid}
use stds_backend_go.Db.Rows.{LeaseRow, BillRow}

-- `a.Equal(b)` on two midnights.
unfoldable pub same_day : Date → Date → Bool
same_day a b = eqb a.year b.year && eqb a.month b.month && eqb a.day b.day

-- `if err != nil || len(periods) == 0 { return false }`, and the comparison after it.
unfoldable pub first_ends_on : Date → Result PeriodError (List Period) → Bool
first_ends_on day (err e) = false
first_ends_on day (ok []) = false
first_ends_on day (ok (period ∷ periods)) = same_day period.period_end day

-- `start.AddDate(2, 0, 0)`
abbrev pub two_years_later : Date → Date
two_years_later d = go_date (d.year + 2) d.month d.day

module _ {F : Type 0} where
  unfoldable pub is_complete_boundary_bill : LeaseRow → BillRow F → Bool
  is_complete_boundary_bill lease bill =
      let start = bill.state.period_start in
      let until = record start { date = two_years_later start.date } in
      let anchor_day = lease.state.start_date.date.day in
      if bill.state.type == type_rent
      then first_ends_on bill.state.period_end.date (
          build_rent_billing_periods_from_anchor start until lease.state.rent_billing_cadence
            anchor_day)
      else if bill.state.type == type_electricity
      then first_ends_on bill.state.period_end.date (
          if lease.state.electricity_billing_cadence == cadence_monthly
          then build_monthly_billing_periods_from_anchor start until anchor_day
          else build_billing_periods start until lease.state.electricity_billing_cadence)
      else false

  -- The loop of `isReplacementBoundary`: of the bills that end on the eve, the last of each type counts.
  unfoldable pub boundaries : LeaseRow → Date → Bool → Bool → List (BillRow F) → Bool
  boundaries lease effective_start has_rent has_electricity [] = has_rent && has_electricity
  boundaries lease effective_start has_rent has_electricity (bill ∷ bills) =
      let ends = same_day (next_day bill.state.period_end.date) effective_start in
      let complete = is_complete_boundary_bill lease bill in
      boundaries lease effective_start
        (if ends && bill.state.type == type_rent then complete else has_rent)
        (if ends && bill.state.type == type_electricity then complete else has_electricity) bills

  unfoldable pub is_replacement_boundary : LeaseRow → List (BillRow F) → Date → Bool
  unfolding boundaries
  is_replacement_boundary lease bills effective_start =
      boundaries lease effective_start false false bills

  unfoldable pub unsettled_before_boundary : List (BillRow F) → Date → List String
  unsettled_before_boundary [] effective_start = []
  unsettled_before_boundary (bill ∷ bills) effective_start =
      let ids = unsettled_before_boundary bills effective_start in
      if before bill.state.period_end.date effective_start && not (bill.state.status == status_paid)
      then bill.state.id ∷ ids
      else ids
