-- ===== src/Services/Tests/Again.antt =====
-- A deposit that is settled, and then written off by a forced termination.
use stds_backend_go.Prelude.{◌≡◌, false, refl, some, ok, [], Result, arith, ℕ}
use stds_backend_go.Prelude.Int.{pos, add_int, wrap, ◌+ℤ◌, eqb_ℤ}
use stds_backend_go.Prelude.Text.{trim_space, trim_to_optional}
use stds_backend_go.Prelude.Sets.{has}
use stds_backend_go.GoTime.{before, after}
use stds_backend_go.Lease
use stds_backend_go.Lease.Defs.{check_state, is_valid_rent_cadence, is_valid_electricity_cadence}
use stds_backend_go.Db.Table.{find, update_where, select, exists}
use stds_backend_go.Db.Script.{Session, statement}
use stds_backend_go.Db.Roles.{admin, may_access}
use stds_backend_go.Db.Bills.{found, create_accounting_entry}
use stds_backend_go.Db.Leases.{
  settle_columns, find_lease_by_id_for_update, update_lease, list_bills_by_lease_id, change_bills,
  write_off_bills,
}
use stds_backend_go.Db.Forced.{
  Detail, create_force_termination, create_force_termination_bills,
  mark_force_termination_bills_done, complete_force_termination, find_force_termination_by_id,
  new_force_termination_bills,
}
use stds_backend_go.Services.Leases.Errors.{ServiceError}
use stds_backend_go.Services.Leases.Deposit.{
  settle_lease, entry_if, record_deposit_accounting_entries, refund_entry, deduction_entry,
}
use stds_backend_go.Services.Leases.Terminate.{unpaid_bill_ids}
use stds_backend_go.Services.Leases.Force.{force_lease, write_off_entry}
use stds_backend_go.Services.Leases.Force.Again.{IsBookedAgain, write_off_books_again}
use stds_backend_go.Services.Tests.{day, value_or, no_lease}
use stds_backend_go.Services.Tests.Runs.{
  fresh, leased, lease_row, settled, settled-ok, order, no_detail,
}

-- The lease with its deposit settled, and the bills as they were.
abbrev after_settlement : Session ℕ
after_settlement =
    leased (settle_columns (pos 150) (pos 50) (some "paint") lease_row) "pending_payment"
      "pending_meter"

row_kept : after_settlement.db.leases ≡ settled.0.db.leases
unfolding settled settle_lease statement find found may_access find_lease_by_id_for_update
    update_lease update_where Lease.Defs.rehydrate Lease.Defs.normalize_state check_state
    is_valid_rent_cadence is_valid_electricity_cadence after before trim_space
    Lease.Defs.settle_deposit add_int wrap ◌+ℤ◌ trim_to_optional create_accounting_entry exists
    entry_if record_deposit_accounting_entries refund_entry deduction_entry
row_kept = refl

unfoldable again : Session ℕ × Result ServiceError Detail
unfolding force_lease
again = force_lease admin [] order (day 2 28) after_settlement

again-ok :
    force_lease admin [] order (day 2 28) after_settlement
    ≡ (again.0, ok (value_or no_detail again.1))
unfolding again force_lease statement find found may_access find_lease_by_id_for_update update_lease
    update_where Lease.Defs.rehydrate Lease.Defs.normalize_state check_state is_valid_rent_cadence
    is_valid_electricity_cadence after before trim_space list_bills_by_lease_id select
    unpaid_bill_ids Lease.Defs.force_terminate Lease.Defs.is_terminable_status
    create_force_termination create_force_termination_bills change_bills write_off_bills has
    mark_force_termination_bills_done complete_force_termination find_force_termination_by_id
    new_force_termination_bills entry_if create_accounting_entry exists write_off_entry
again-ok = refl

some_deposit : eqb_ℤ (value_or no_lease settled.1).state.deposit_amount (pos 0) ≡ false
unfolding settled settle_lease statement find found may_access find_lease_by_id_for_update
    update_lease update_where Lease.Defs.rehydrate Lease.Defs.normalize_state check_state
    is_valid_rent_cadence is_valid_electricity_cadence after before trim_space
    Lease.Defs.settle_deposit add_int wrap ◌+ℤ◌ trim_to_optional create_accounting_entry exists
    entry_if record_deposit_accounting_entries refund_entry deduction_entry
some_deposit = refl

write_off_books_again_example :
    IsBookedAgain "l1" (pos 150) (pos 50) (value_or no_lease settled.1) after_settlement again.0
write_off_books_again_example =
    write_off_books_again admin admin [] [] (pos 150) (pos 50) (some "paint") (day 2 28) (day 2 28)
      order (omega arith) (omega arith) refl fresh after_settlement some_deposit settled-ok row_kept
      again-ok
