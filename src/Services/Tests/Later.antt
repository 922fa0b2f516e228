-- ===== src/Services/Tests/Later.antt =====
-- Services in transactions, and one after the other.
use stds_backend_go.Prelude.{
  ◌≡◌, refl, ◌⊎◌, ◌++◌, ℕ, false, List, [], ◌∷◌, none, some, Method, Result, ok, arith,
}
use stds_backend_go.Prelude.Int.{pos, add_int, wrap, ◌+ℤ◌}
use stds_backend_go.Prelude.Floats.{whole}
use stds_backend_go.Prelude.Text.{trim_space, trim_to_optional}
use stds_backend_go.GoTime.{before, after}
use stds_backend_go.Tx.Runner.{Sql, World, publish_recorded, within_transaction}
use stds_backend_go.Tx.Atomic.{IsTransactional, IsUndone}
use stds_backend_go.Lease
use stds_backend_go.Lease.Defs.{check_state, is_valid_rent_cadence, is_valid_electricity_cadence}
use stds_backend_go.Bill
use stds_backend_go.Db.Table.{find, update_where, select, exists}
use stds_backend_go.Db.Rows.{Database, Event, LeaseRow, BillRow}
use stds_backend_go.Db.Script.{Session, statement}
use stds_backend_go.Db.Roles.{admin, may_access}
use stds_backend_go.Db.Bills.{
  found, is_bill, is_lease, create_accounting_entry, get_bill_for_update,
  find_previous_meter_reading, find_property_electricity_unit_price, previous_reading,
}
use stds_backend_go.Db.Leases.{find_lease_by_id_for_update, update_lease}
use stds_backend_go.Services.Leases.Errors.{ServiceError}
use stds_backend_go.Services.Leases.Deposit.{
  settle_lease, entry_if, record_deposit_accounting_entries, refund_entry, deduction_entry,
}
use stds_backend_go.Services.Payment.{BillingError, pay_bill}
use stds_backend_go.Services.Payment.Books.{IsBooked}
use stds_backend_go.Services.Meter.{meter_bill, price_or_error}
use stds_backend_go.Services.Transaction.{Environment, begin_session, fn_of, payment_refines}
use stds_backend_go.Services.History
use stds_backend_go.Services.History.Bills.{paid_bill_stays}
use stds_backend_go.Services.History.Leases.{terms_of, closed_lease_stays}
use stds_backend_go.Services.Tests.{day, ids, value_or, no_lease}
use stds_backend_go.Services.Tests.Runs.{fresh, leased, lease_row, rent_bill, no_bill}

abbrev sql : Sql (Database ℕ) BillingError
sql = record {
  begin = λ db. (db, none);
  commit = λ begun now. (now, none);
  rollback = λ begun now. (begun, none);
}

sql-IsTransactional : IsTransactional sql
sql-IsTransactional = record {
  begins = λ db. refl;
  rolls_back = λ db now. refl;
  commits = λ db now h. refl;
  discards = λ db now h. absurd (h refl);
}

abbrev publisher : Event ℕ → Method (World (Database ℕ) (List (Event ℕ))) BillingError
publisher event w = (record w { out = w.out ++ (event ∷ []) }, none)

abbrev env : Environment
env = record { faults = []; now = day 1 5; ids = ids }

abbrev world : World (Database ℕ) (List (Event ℕ))
world = record { db = fresh.db; out = [] }

payment_refines_example :
    IsUndone sql publisher
      (fn_of (pay_bill "b1" (pos 100) "cash" (day 1 5)) env)
      sql-IsTransactional
      world
      (within_transaction sql publisher
        (fn_of (pay_bill "b1" (pos 100) "cash" (day 1 5)) env)
        world)
    ⊎ ((t : Session ℕ) × (r : BillRow ℕ) × IsBooked "b1"
          (pos 100)
          "cash"
          (day 1 5)
          (begin_session env world.db)
          t
          r
        × (within_transaction sql publisher
              (fn_of (pay_bill "b1" (pos 100) "cash" (day 1 5)) env)
              world
            ≡ publish_recorded publisher 0 t.events (record world { db = t.db })))
payment_refines_example =
    payment_refines sql publisher sql-IsTransactional env "b1" (pos 100) "cash" (day 1 5) world

-- The rent bill is paid, then the meter is read.
abbrev half_paid : Session ℕ
half_paid = leased lease_row "paid" "pending_meter"

unfoldable read_later : Session ℕ × Result BillingError (BillRow ℕ)
unfolding meter_bill
read_later = meter_bill whole "b2" (pos 15) (day 2 1) half_paid

read_later-ok :
    meter_bill whole "b2" (pos 15) (day 2 1) half_paid
    ≡ (read_later.0, ok (value_or no_bill read_later.1))
unfolding read_later meter_bill statement find found get_bill_for_update find_previous_meter_reading
    find_property_electricity_unit_price price_or_error Bill.Defs.record_meter Bill.Defs.rehydrate
    trim_space previous_reading select exists update_where
read_later-ok = refl

half_paid_bill : find (is_bill "b1") half_paid.db.bills ≡ some (rent_bill "paid")
unfolding find
half_paid_bill = refl

paid_bill_stays_example : find (is_bill "b1") read_later.0.db.bills ≡ some (rent_bill "paid")
paid_bill_stays_example =
    paid_bill_stays whole "b1" (rent_bill "paid")
      (History.after half_paid read_later.0 History.start
        (History.reading "b2" (pos 15) (day 2 1) (value_or no_bill read_later.1) read_later-ok))
      half_paid_bill refl

-- The deposit of a lease that was ended by force is settled later.
abbrev forced_row : LeaseRow
forced_row = record lease_row { state = record lease_row.state { status = "force_terminated" } }

abbrev kept_held : Session ℕ
kept_held = leased forced_row "paid" "written_off"

unfoldable settled_later : Session ℕ × Result ServiceError LeaseRow
unfolding settle_lease
settled_later = settle_lease admin [] "l1" (pos 200) (pos 0) none (day 2 28) kept_held

settled_later-ok :
    settle_lease admin [] "l1" (pos 200) (pos 0) none (day 2 28) kept_held
    ≡ (settled_later.0, ok (value_or no_lease settled_later.1))
unfolding settled_later settle_lease statement find found may_access find_lease_by_id_for_update
    update_lease update_where Lease.Defs.rehydrate Lease.Defs.normalize_state check_state
    is_valid_rent_cadence is_valid_electricity_cadence after before trim_space
    Lease.Defs.settle_deposit add_int wrap ◌+ℤ◌ trim_to_optional create_accounting_entry exists
    entry_if record_deposit_accounting_entries refund_entry deduction_entry
settled_later-ok = refl

kept_lease : find (is_lease "l1") kept_held.db.leases ≡ some forced_row
unfolding find
kept_lease = refl

forced_closed : Lease.Defs.is_terminable_status forced_row.state.status ≡ false
unfolding Lease.Defs.is_terminable_status
forced_closed = refl

closed_lease_stays_example :
    (later : LeaseRow) × (find (is_lease "l1") settled_later.0.db.leases ≡ some later)
    × (terms_of later ≡ terms_of forced_row)
closed_lease_stays_example =
    closed_lease_stays whole "l1" forced_row
      (History.after kept_held settled_later.0 History.start (
        History.settlement admin [] "l1" (pos 200) (pos 0) none (day 2 28)
          (value_or no_lease settled_later.1) (omega arith) (omega arith) settled_later-ok))
      kept_lease forced_closed
