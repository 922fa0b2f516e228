-- ===== src/Services/Tests/Runs.antt =====
-- Runs of the services on a lease with its first bills.
use stds_backend_go.Prelude.{◌≡◌, ◌≢◌, refl, ◌⊎◌, ℕ, String, [], ◌∷◌, none, some, Result, ok, arith}
use stds_backend_go.Prelude.Int.{pos}
use stds_backend_go.Prelude.Floats.{whole}
use stds_backend_go.Prelude.Text.{trim_space}
use stds_backend_go.GoTime.{IsDate, date, before, after, next_day, prev_day, go_date, days_in}
use stds_backend_go.Periods.Defs.{
  build_rent_billing_periods, build_rent_billing_periods_from_anchor, build_billing_periods,
  build_anchored_periods, build_monthly_periods, period_loop, clamped_month_date,
  build_monthly_billing_periods_from_anchor, next_rent_payment_date_after, payment_loop,
  rent_cadence_months,
}
use stds_backend_go.Lease
use stds_backend_go.Lease.Defs.{check_state, is_valid_rent_cadence, is_valid_electricity_cadence}
use stds_backend_go.Bill
use stds_backend_go.Db.Table.{find, update_where, select, exists}
use stds_backend_go.Db.Rows.{LeaseRow, BillRow}
use stds_backend_go.Db.Script.{Session, statement}
use stds_backend_go.Db.Roles.{admin, may_access}
use stds_backend_go.Db.Bills.{found, is_lease}
use stds_backend_go.Db.Leases.{new_lease_row, new_bill_row}
use stds_backend_go.Db.Forced.{Detail}
use stds_backend_go.Services.Leases.Errors.{ServiceError}
use stds_backend_go.Services.Payment.{BillingError, pay_bill}
use stds_backend_go.Services.Payment.Books.{IsBooked, pay_bill-IsBooked}
use stds_backend_go.Services.Meter.{meter_bill}
use stds_backend_go.Services.Meter.Reads.{IsMetered, meter_bill-IsMetered}
use stds_backend_go.Services.Leases.Deposit.{settle_lease}
use stds_backend_go.Services.Leases.Settled.{
  IsSettledLease, settle_lease-IsSettledLease, settle_lease_once,
}
use stds_backend_go.Services.Leases.Terminate.{end_lease}
use stds_backend_go.Services.Leases.Terminate.Proof.{IsEndedLease, end_lease-IsEndedLease}
use stds_backend_go.Services.Leases.Force.{Order, force_lease, write_off_entry}
use stds_backend_go.Services.Leases.Force.Proof.{IsForced, force_lease-IsForced}
use stds_backend_go.Services.Leases.Rent.{change_rent}
use stds_backend_go.Services.Leases.Rent.Proof.{IsChangedRent, change_rent-IsChangedRent}
use stds_backend_go.Services.Leases.Replace.{Replacement, ReplaceLeaseResult, replace_lease}
use stds_backend_go.Services.Leases.Replace.Proof.{IsReplaced, replace_lease-IsReplaced}
use stds_backend_go.Prelude.Sets.{has}
use stds_backend_go.Db.Bills.{
  get_bill_for_update, find_previous_meter_reading, find_property_electricity_unit_price,
  previous_reading, create_accounting_entry,
}
use stds_backend_go.Db.Leases.{
  find_lease_by_id_for_update, update_lease, list_bills_by_lease_id, change_bills, write_off_bills,
  has_locked_rent_bills_from_due_date, void_rent_bills_from_due_date, create_bills, create_lease,
  find_tenant_by_id, find_room_by_id_for_update, void_bills_overlapping_or_after,
}
use stds_backend_go.Db.Forced.{
  create_force_termination, create_force_termination_bills, mark_force_termination_bills_done,
  complete_force_termination, find_force_termination_by_id, new_force_termination_bills,
}
use stds_backend_go.Services.Payment.{
  accounting_category_for_bill_type, accounting_title_code_for_bill_type,
}
use stds_backend_go.Services.Meter.{price_or_error}
use stds_backend_go.Services.Leases.Deposit.{
  entry_if, record_deposit_accounting_entries, refund_entry, deduction_entry,
}
use stds_backend_go.Services.Leases.Terminate.{unpaid_bill_ids}
use stds_backend_go.Services.Leases.Create.{store_lease, lease_params, build_rent_bill_seeds}
use stds_backend_go.Services.Leases.Rent.{check_locked, unless_same, regenerate}
use stds_backend_go.Services.Leases.Replace.Boundary.{
  is_replacement_boundary, is_complete_boundary_bill, same_day, first_ends_on,
  unsettled_before_boundary, boundaries,
}
use stds_backend_go.Prelude.Int.{add_int, wrap, ◌+ℤ◌}
use stds_backend_go.Prelude.Text.{trim_to_optional}
use stds_backend_go.Services.Tests.{empty, session, day, value_or, no_lease, jan_1, feb_28}

abbrev pub lease_row : LeaseRow
lease_row = new_lease_row "l1" (record {
  tenant_id = "t1";
  room_id = "r1";
  property_id = "p1";
  rent_amount = pos 100;
  start_date = day 1 1;
  end_date = day 2 28;
  rent_billing_cadence = "monthly";
  electricity_billing_cadence = "monthly";
  starting_meter_reading = pos 10;
  deposit_amount = pos 200;
  notes = none;
})

abbrev pub rent_bill : String → BillRow ℕ
rent_bill status = new_bill_row "b1" (day 1 1) (record {
  lease_id = "l1";
  tenant_id = "t1";
  room_id = "r1";
  property_id = "p1";
  type = "rent";
  amount = some (pos 100);
  period_start = date 1 1 1;
  period_end = date 1 1 31;
  due_date = date 1 1 1;
  status = status;
})

abbrev pub electricity_bill : String → BillRow ℕ
electricity_bill status = new_bill_row "b2" (day 1 1) (record {
  lease_id = "l1";
  tenant_id = "t1";
  room_id = "r1";
  property_id = "p1";
  type = "electricity";
  amount = none;
  period_start = date 1 1 1;
  period_end = date 1 1 31;
  due_date = date 1 1 1;
  status = status;
})

abbrev pub leased : LeaseRow → String → String → Session ℕ
leased row rent electricity =
    session (record empty {
      leases = row ∷ [];
      bills = rent_bill rent ∷ electricity_bill electricity ∷ [];
    })

abbrev pub no_bill : BillRow ℕ
no_bill = rent_bill ""

-- The lease and both of its bills as they are created.
abbrev pub fresh : Session ℕ
fresh = leased lease_row "pending_payment" "pending_meter"

-- Both bills are paid.
abbrev pub cleared : Session ℕ
cleared = leased lease_row "paid" "paid"

feb_1 : IsDate (date 1 2 1)
unfolding days_in
feb_1 = ground arith

jan_15 : IsDate (date 1 1 15)
unfolding days_in
jan_15 = ground arith

unfoldable pub paid : Session ℕ × Result BillingError (BillRow ℕ)
unfolding pay_bill
paid = pay_bill "b1" (pos 100) "cash" (day 1 5) fresh

pub paid-ok :
    pay_bill "b1" (pos 100) "cash" (day 1 5) fresh ≡ (paid.0, ok (value_or no_bill paid.1))
unfolding paid pay_bill statement find found get_bill_for_update Bill.Defs.record_payment
    Bill.Defs.rehydrate trim_space Bill.Defs.pay exists update_where
    accounting_category_for_bill_type accounting_title_code_for_bill_type create_accounting_entry
paid-ok = refl

pay_bill-IsBooked_example :
    IsBooked "b1" (pos 100) "cash" (day 1 5) fresh paid.0 (value_or no_bill paid.1)
pay_bill-IsBooked_example = pay_bill-IsBooked "b1" (pos 100) "cash" (day 1 5) fresh paid-ok

unfoldable pub metered : Session ℕ × Result BillingError (BillRow ℕ)
unfolding meter_bill
metered = meter_bill whole "b2" (pos 15) (day 2 1) fresh

pub metered-ok :
    meter_bill whole "b2" (pos 15) (day 2 1) fresh ≡ (metered.0, ok (value_or no_bill metered.1))
unfolding metered meter_bill statement find found get_bill_for_update find_previous_meter_reading
    find_property_electricity_unit_price price_or_error Bill.Defs.record_meter Bill.Defs.rehydrate
    trim_space previous_reading select exists update_where
metered-ok = refl

meter_bill-IsMetered_example :
    IsMetered whole "b2" (pos 15) (day 2 1) fresh metered.0 (value_or no_bill metered.1)
meter_bill-IsMetered_example = meter_bill-IsMetered whole "b2" (pos 15) (day 2 1) fresh metered-ok

unfoldable pub settled : Session ℕ × Result ServiceError LeaseRow
unfolding settle_lease
settled = settle_lease admin [] "l1" (pos 150) (pos 50) (some "paint") (day 2 28) fresh

pub settled-ok :
    settle_lease admin [] "l1" (pos 150) (pos 50) (some "paint") (day 2 28) fresh
    ≡ (settled.0, ok (value_or no_lease settled.1))
unfolding settled settle_lease statement find found may_access find_lease_by_id_for_update
    update_lease update_where Lease.Defs.rehydrate Lease.Defs.normalize_state check_state
    is_valid_rent_cadence is_valid_electricity_cadence after before trim_space
    Lease.Defs.settle_deposit add_int wrap ◌+ℤ◌ trim_to_optional create_accounting_entry exists
    entry_if record_deposit_accounting_entries refund_entry deduction_entry
settled-ok = refl

settle_lease-IsSettledLease_example :
    IsSettledLease admin [] "l1"
      (pos 150)
      (pos 50)
      (some "paint")
      (day 2 28)
      fresh
      settled.0
      (value_or no_lease settled.1)
settle_lease-IsSettledLease_example =
    settle_lease-IsSettledLease admin [] "l1" (pos 150) (pos 50) (some "paint") (day 2 28)
      (omega arith) (omega arith) fresh settled-ok

settle_lease_once_example :
    settle_lease admin [] "l1" (pos 200) (pos 0) none (day 3 1) settled.0
    ≢ (settled.0, ok lease_row)
settle_lease_once_example =
    settle_lease_once admin admin [] [] "l1" (pos 150) (pos 50) (pos 200) (pos 0) (some "paint")
      none (day 2 28) (day 3 1) fresh settled.0 (omega arith) (omega arith) (omega arith)
      (omega arith) settled-ok refl

unfoldable pub ended : Session ℕ × Result ServiceError LeaseRow
unfolding end_lease
ended = end_lease admin [] "l1" (pos 150) (pos 50) (some "paint") (day 2 28) cleared

pub ended-ok :
    end_lease admin [] "l1" (pos 150) (pos 50) (some "paint") (day 2 28) cleared
    ≡ (ended.0, ok (value_or no_lease ended.1))
unfolding ended end_lease statement find found may_access find_lease_by_id_for_update update_lease
    update_where Lease.Defs.rehydrate Lease.Defs.normalize_state check_state is_valid_rent_cadence
    is_valid_electricity_cadence after before trim_space Lease.Defs.settle_deposit add_int wrap ◌+ℤ◌
    trim_to_optional create_accounting_entry exists entry_if record_deposit_accounting_entries
    refund_entry deduction_entry list_bills_by_lease_id select unpaid_bill_ids Lease.Defs.terminate
    Lease.Defs.is_terminable_status
ended-ok = refl

end_lease-IsEndedLease_example :
    IsEndedLease admin [] "l1"
      (pos 150)
      (pos 50)
      (some "paint")
      (day 2 28)
      cleared
      ended.0
      (value_or no_lease ended.1)
end_lease-IsEndedLease_example =
    end_lease-IsEndedLease admin [] "l1" (pos 150) (pos 50) (some "paint") (day 2 28) (omega arith)
      (omega arith) cleared ended-ok

abbrev pub order : Order
order = record {
  lease_id = "l1";
  actor_user_id = "u1";
  reason = "moved out";
  deposit_handling = "write_off";
  termination_date = date 1 2 1;
  actual_move_out_date = none;
}

abbrev pub no_detail : Detail
no_detail = (
  record {
    id = "";
    lease_id = "";
    initiated_by = "";
    reason = "";
    deposit_handling = "";
    status = "";
  },
  [],
)

order_trimmed : trim_space order.deposit_handling ≡ order.deposit_handling
unfolding trim_space
order_trimmed = refl

unfoldable pub forced : Session ℕ × Result ServiceError Detail
unfolding force_lease
forced = force_lease admin [] order (day 2 1) fresh

pub forced-ok :
    force_lease admin [] order (day 2 1) fresh ≡ (forced.0, ok (value_or no_detail forced.1))
unfolding forced force_lease statement find found may_access find_lease_by_id_for_update
    update_lease update_where Lease.Defs.rehydrate Lease.Defs.normalize_state check_state
    is_valid_rent_cadence is_valid_electricity_cadence after before trim_space
    list_bills_by_lease_id select unpaid_bill_ids Lease.Defs.force_terminate
    Lease.Defs.is_terminable_status create_force_termination create_force_termination_bills
    change_bills write_off_bills has mark_force_termination_bills_done complete_force_termination
    find_force_termination_by_id new_force_termination_bills entry_if create_accounting_entry exists
    write_off_entry
forced-ok = refl

force_lease-IsForced_example :
    IsForced admin [] order (day 2 1) fresh forced.0 (value_or no_detail forced.1)
force_lease-IsForced_example =
    force_lease-IsForced admin [] order (day 2 1) order_trimmed fresh forced-ok

fresh_lease : find (is_lease "l1") fresh.db.leases ≡ some lease_row
unfolding find
fresh_lease = refl

unfoldable pub changed : Session ℕ × Result ServiceError LeaseRow
unfolding change_rent
changed = change_rent admin [] "l1" (pos 120) (day 1 15) (day 1 15) fresh

pub changed-ok :
    change_rent admin [] "l1" (pos 120) (day 1 15) (day 1 15) fresh
    ≡ (changed.0, ok (value_or no_lease changed.1))
unfolding changed change_rent statement find found may_access find_lease_by_id_for_update
    update_lease update_where Lease.Defs.rehydrate Lease.Defs.normalize_state check_state
    is_valid_rent_cadence is_valid_electricity_cadence after before trim_space
    Lease.Defs.change_rent check_locked unless_same next_rent_payment_date_after payment_loop
    rent_cadence_months has_locked_rent_bills_from_due_date exists regenerate
    void_rent_bills_from_due_date change_bills build_rent_billing_periods
    build_rent_billing_periods_from_anchor build_billing_periods build_anchored_periods
    build_monthly_periods period_loop clamped_month_date go_date prev_day create_bills
    build_rent_bill_seeds days_in
changed-ok = refl

change_rent-IsChangedRent_example :
    ((lease_row.state.rent_amount ≡ pos 120)
      × (value_or no_lease changed.1 ≡ lease_row)
      × (changed.0.db ≡ fresh.db)
      × (changed.0.events ≡ fresh.events))
    ⊎ IsChangedRent "l1"
        (pos 120)
        (day 1 15)
        (day 1 15)
        (date 1 2 1)
        lease_row
        fresh
        changed.0
        (value_or no_lease changed.1)
change_rent-IsChangedRent_example =
    change_rent-IsChangedRent admin [] "l1" (pos 120) (day 1 15) (day 1 15) (date 1 2 1) lease_row
      fresh fresh_lease jan_1 feb_28 jan_15 feb_1 changed-ok

abbrev successor : Replacement
successor = record {
  lease_id = "l1";
  reason = "renewal";
  effective_start = date 1 2 1;
  new_end_date = date 1 2 28;
  rent_amount = pos 120;
  rent_billing_cadence = "monthly";
  electricity_billing_cadence = "monthly";
  notes = none;
}

abbrev no_result : ReplaceLeaseResult
no_result = record { old_lease = no_lease; new_lease = no_lease; changed_fields = [] }

unfoldable pub replaced : Session ℕ × Result ServiceError ReplaceLeaseResult
unfolding replace_lease
replaced = replace_lease admin [] successor (day 1 31) cleared

pub replaced-ok :
    replace_lease admin [] successor (day 1 31) cleared
    ≡ (replaced.0, ok (value_or no_result replaced.1))
unfolding replaced replace_lease statement find found may_access find_lease_by_id_for_update
    update_lease update_where Lease.Defs.rehydrate Lease.Defs.normalize_state check_state
    is_valid_rent_cadence is_valid_electricity_cadence after before trim_space find_tenant_by_id
    find_room_by_id_for_update list_bills_by_lease_id select is_replacement_boundary
    is_complete_boundary_bill same_day first_ends_on build_monthly_billing_periods_from_anchor
    next_day unsettled_before_boundary Lease.Defs.new void_bills_overlapping_or_after change_bills
    store_lease create_lease lease_params boundaries build_rent_billing_periods
    build_rent_billing_periods_from_anchor build_billing_periods build_anchored_periods
    build_monthly_periods period_loop clamped_month_date go_date prev_day create_bills
    build_rent_bill_seeds days_in
replaced-ok = refl

replace_lease-IsReplaced_example :
    IsReplaced admin [] successor
      (day 1 31)
      (date 1 2 1)
      cleared
      replaced.0
      (value_or no_result replaced.1)
replace_lease-IsReplaced_example =
    replace_lease-IsReplaced admin [] successor (day 1 31) (date 1 2 1) feb_1 feb_28 feb_1 cleared
      replaced-ok
