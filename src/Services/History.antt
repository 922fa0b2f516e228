-- ===== src/Services/History.antt =====
-- The database over time: any number of payments, meter readings, settlements of a deposit, normal and
-- forced terminations, creations, changes of the rent and replacements that succeed, one after the
-- other, each in its transaction. Finalizing a checkout, the jobs and the subscribers of events are
-- not among these steps.
pub mod Bills
pub mod Leases
use stds_backend_go.Prelude.{◌≡◌, String, List, Option, some, ok}
use stds_backend_go.Prelude.Int.{ℤ, InInt}
use stds_backend_go.Prelude.Floats.{Floats}
use stds_backend_go.Prelude.Text.{trim_space}
use stds_backend_go.GoTime.{Time, IsDate}
use stds_backend_go.Db.Table.{find}
use stds_backend_go.Db.Rows.{Database, BillRow, LeaseRow}
use stds_backend_go.Db.Script.{Session}
use stds_backend_go.Db.Roles.{Role}
use stds_backend_go.Db.Bills.{is_lease}
use stds_backend_go.Db.Forced.{Detail}
use stds_backend_go.Services.Payment.{pay_bill}
use stds_backend_go.Services.Meter.{meter_bill}
use stds_backend_go.Services.Leases.Deposit.{settle_lease}
use stds_backend_go.Services.Leases.Terminate.{end_lease}
use stds_backend_go.Services.Leases.Force.{Order, force_lease}
use stds_backend_go.Services.Leases.Create.{Terms, open_lease}
use stds_backend_go.Services.Leases.Rent.{change_rent}
use stds_backend_go.Services.Leases.Replace.{Replacement, ReplaceLeaseResult, replace_lease}

module _ (f : Floats) where
  -- One of the eight commands has succeeded, from the session s to the session t. Amounts are values of `int`, and
  -- days are days of the calendar.
  pub data Step (s t : Session f.Float64) : Type 0 where
    payment :
        (bill_id : String) (amount : ℤ) (method : String) (paid_at : Time) (r : BillRow f.Float64)
        → pay_bill bill_id amount method paid_at s ≡ (t, ok r)
        → Step s t
    reading :
        (bill_id : String) (current : ℤ) (recorded_at : Time) (r : BillRow f.Float64)
        → meter_bill f bill_id current recorded_at s ≡ (t, ok r)
        → Step s t
    settlement :
        (role : Role) (assigned : List String) (lease_id : String) (refund deduction : ℤ)
        (reason : Option String) (at : Time) (r : LeaseRow)
        → InInt refund
        → InInt deduction
        → settle_lease role assigned lease_id refund deduction reason at s ≡ (t, ok r)
        → Step s t
    termination :
        (role : Role) (assigned : List String) (lease_id : String) (refund deduction : ℤ)
        (reason : Option String) (at : Time) (r : LeaseRow)
        → InInt refund
        → InInt deduction
        → end_lease role assigned lease_id refund deduction reason at s ≡ (t, ok r)
        → Step s t
    forced_termination :
        (role : Role) (assigned : List String) (order : Order) (at : Time) (r : Detail)
        → trim_space order.deposit_handling ≡ order.deposit_handling
        → force_lease role assigned order at s ≡ (t, ok r)
        → Step s t
    creation :
        (role : Role) (assigned : List String) (terms : Terms) (at : Time) (r : LeaseRow)
        → IsDate terms.start_date.date
        → IsDate terms.end_date.date
        → open_lease role assigned terms at s ≡ (t, ok r)
        → Step s t
    rent_change :
        (role : Role) (assigned : List String) (lease_id : String) (rent : ℤ)
        (operation_date at : Time) (current r : LeaseRow)
        → find (is_lease lease_id) s.db.leases ≡ some current
        → IsDate current.state.start_date.date
        → IsDate current.state.end_date.date
        → IsDate operation_date.date
        → change_rent role assigned lease_id rent operation_date at s ≡ (t, ok r)
        → Step s t
    replacement :
        (role : Role) (assigned : List String) (order : Replacement) (at : Time)
        (r : ReplaceLeaseResult)
        → IsDate order.effective_start
        → IsDate order.new_end_date
        → replace_lease role assigned order at s ≡ (t, ok r)
        → Step s t

  -- The second database is reached from the first.
  pub data Reaches (first : Database f.Float64) : Database f.Float64 → Type 0 where
    start : Reaches first first
    after : (s t : Session f.Float64) → Reaches first s.db → Step s t → Reaches first t.db
