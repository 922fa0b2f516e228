-- ===== src/Services/Tests.antt =====
-- The services at concrete values, one after the other: a lease is created in year 1, its first bill
-- is paid and its meter read, its rent is changed, it is replaced, and other leases are ended.
mod Runs
mod Later
mod Due
mod Again
use stds_backend_go.Prelude.{
  ◌≡◌, refl, ℕ, Bool, true, false, String, List, [], ◌∷◌, Option, none, some, Result, ok, err, eqb,
  if◌then◌else◌, arith,
}
use stds_backend_go.Prelude.Int.{ℤ, pos}
use stds_backend_go.Prelude.Floats.{whole}
use stds_backend_go.GoTime.{
  Date, Time, IsDate, date, days_in, is_leap, before, after, go_date, prev_day,
}
use stds_backend_go.Lease.Defs
use stds_backend_go.Lease.Defs.{check_state, is_valid_rent_cadence, is_valid_electricity_cadence}
use stds_backend_go.Periods.Defs.{
  build_rent_billing_periods, build_rent_billing_periods_from_anchor, build_billing_periods,
  build_anchored_periods, build_monthly_periods, period_loop, clamped_month_date,
}
use stds_backend_go.Prelude.Text.{trim_space}
use stds_backend_go.Db.Table.{find}
use stds_backend_go.Db.Script.{statement}
use stds_backend_go.Db.Bills.{found}
use stds_backend_go.Db.Leases.{
  new_lease_row, find_tenant_by_id, find_room_by_id_for_update, create_lease, create_bills,
}
use stds_backend_go.Services.Leases.Errors.{ServiceError}
use stds_backend_go.Db.Rows.{Database, LeaseRow, BillRow}
use stds_backend_go.Db.Script.{Session}
use stds_backend_go.Db.Roles.{admin, may_access}
use stds_backend_go.Services.Leases.Create.{
  Terms, open_lease, store_lease, lease_params, new_state, rent_cadence, electricity_cadence,
  trimmed_optional_string, build_rent_bill_seeds,
}
use stds_backend_go.Services.Leases.Create.Proof.{IsOpenedLease, open_lease-IsOpenedLease}

abbrev pub ids : ℕ → String
ids n = if eqb n 0 then "l1" else if eqb n 1 then "b1" else if eqb n 2 then "b2" else "b3"

abbrev pub day : ℕ → ℕ → Time
day m d = record { date = date 1 m d; clock = 0 }

abbrev pub empty : Database ℕ
empty = record {
  leases = [];
  bills = [];
  rooms = record { id = "r1"; property_id = "p1"; status = "vacant"; deleted = false } ∷ [];
  properties =
      record {
        id = "p1";
        default_electricity_billing_cadence = "monthly";
        electricity_unit_price = some 5;
        deleted = false;
      }
      ∷ [];
  tenants = record { id = "t1"; status = "active"; deleted = false } ∷ [];
  property_accounts = record { id = "a1"; property_id = "p1"; deleted = false } ∷ [];
  accounting_titles =
      record { code = "4601"; is_active = true }
      ∷ record { code = "4602"; is_active = true }
      ∷ record { code = "4603"; is_active = true }
      ∷ record { code = "4605"; is_active = true }
      ∷ [];
  accounting_entries = [];
  force_terminations = [];
  force_termination_bills = [];
}

abbrev pub session : Database ℕ → Session ℕ
session db = record {
  db = db;
  events = [];
  faults = false ∷ [];
  now = day 1 1;
  ids = ids;
  drawn = 0;
}

abbrev terms : Terms
terms = record {
  tenant_id = "t1";
  room_id = "r1";
  rent_amount = pos 100;
  start_date = day 1 1;
  end_date = day 2 28;
  deposit_amount = pos 200;
  rent_billing_cadence = "";
  electricity_billing_cadence = none;
  starting_meter_reading = pos 10;
  notes = none;
}

abbrev pub value_or : {E A : Type 0} → A → Result E A → A
value_or default (ok a) = a
value_or default (err e) = default

pub jan_1 : IsDate (date 1 1 1)
unfolding days_in
jan_1 = ground arith

pub feb_28 : IsDate (date 1 2 28)
unfolding days_in is_leap
feb_28 = ground arith

abbrev pub no_lease : LeaseRow
no_lease = new_lease_row "" (record {
  tenant_id = "";
  room_id = "";
  property_id = "";
  rent_amount = pos 0;
  start_date = day 1 1;
  end_date = day 1 1;
  rent_billing_cadence = "";
  electricity_billing_cadence = "";
  starting_meter_reading = pos 0;
  deposit_amount = pos 0;
  notes = none;
})

unfoldable opened : Session ℕ × Result ServiceError LeaseRow
unfolding open_lease
opened = open_lease admin [] terms (day 1 1) (session empty)

opened-ok :
    open_lease admin [] terms (day 1 1) (session empty)
    ≡ (opened.0, ok (value_or no_lease opened.1))
unfolding opened open_lease find_tenant_by_id statement find found find_room_by_id_for_update
    may_access new_state rent_cadence trim_space electricity_cadence Defs.new Defs.normalize_state
    check_state is_valid_rent_cadence is_valid_electricity_cadence after before store_lease
    create_lease lease_params build_rent_billing_periods build_rent_billing_periods_from_anchor
    build_billing_periods build_anchored_periods build_monthly_periods period_loop
    clamped_month_date go_date prev_day create_bills trimmed_optional_string build_rent_bill_seeds
opened-ok = refl

open_lease-IsOpenedLease_example :
    IsOpenedLease admin [] terms
      (day 1 1)
      (date 1 2 28)
      (session empty)
      opened.0
      (value_or no_lease opened.1)
open_lease-IsOpenedLease_example =
    open_lease-IsOpenedLease admin [] terms (day 1 1) (date 1 2 28) (session empty) jan_1 feb_28
      feb_28 opened-ok
