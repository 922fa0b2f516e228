-- ===== src/Db/Leases.antt =====
-- The statements of internal/platform/database/leases/repository.go that the application services for
-- leases use, through the adapters of internal/server. An identifier that the database draws for a
-- new row is the next one of the session. `end_date` and the dates of a bill are columns without a
-- clock.
pub mod Passed
use stds_backend_go.Prelude.{
  ◌≡◌, refl, ℕ, suc, Bool, true, false, not, ◌&&◌, ◌||◌, String, List, [], ◌∷◌, ◌++◌, map, Option,
  none, some, ◌==◌, if◌then◌else◌, Result, ok, err,
}
use stds_backend_go.Prelude.Int.{ℤ, pos, ◌+ℤ◌}
use stds_backend_go.Prelude.Sets.{has}
use stds_backend_go.GoTime.{Date, Time, before}
use stds_backend_go.Lease
use stds_backend_go.Lease.Defs.{
  status_active, status_expired, status_terminated, status_force_terminated, deposit_status_held,
  deposit_status_settled,
}
use stds_backend_go.Bill
use stds_backend_go.Bill.Defs.{
  type_rent, status_pending_payment, status_pending_meter, status_paid, status_voided,
  status_written_off,
}
use stds_backend_go.Db.Table.{find, update_where, select, exists}
use stds_backend_go.Db.Rows.{
  Database, BillRow, LeaseRow, RoomRow, TenantRow, PropertyRow, ForceTerminationRow,
  ForceTerminationBillRow,
}
use stds_backend_go.Db.Script.{
  Session, Script, RepositoryError, not_found, other_error, statement, query, ◌>>=◌, ◌>>◌,
}
use stds_backend_go.Db.Bills.{found, is_lease, is_property}

abbrev pub midnight : Date → Time
midnight d = record { date = d; clock = 0 }

-- `version = version + 1`
abbrev pub next_version : Lease.Defs.State → Lease.Defs.State
next_version s = record s { version = s.version +ℤ pos 1 }

-- `COALESCE($5, actual_move_out_date)`
abbrev pub coalesce_time : Option Time → Option Time → Option Time
coalesce_time none old = old
coalesce_time (some new) old = some new

abbrev pub settle_columns : ℤ → ℤ → Option String → LeaseRow → LeaseRow
settle_columns refund deduction reason row = record row {
  state = next_version (record row.state {
    deposit_status = deposit_status_settled;
    deposit_refund_amount = some refund;
    deposit_deduction_amount = some deduction;
    deposit_deduction_reason = reason;
  });
}

abbrev pub terminate_columns : Date → String → Option Time → LeaseRow → LeaseRow
terminate_columns end_date reason move_out row = record row {
  state =
      next_version (record row.state { status = status_terminated; end_date = midnight end_date });
  termination_reason = some reason;
  actual_move_out_date = coalesce_time move_out row.actual_move_out_date;
}

abbrev pub force_terminate_columns : Date → String → String → Option Time → LeaseRow → LeaseRow
force_terminate_columns end_date reason deposit_status move_out row = record row {
  state = next_version (record row.state {
    status = status_force_terminated;
    end_date = midnight end_date;
    deposit_status = deposit_status;
  });
  termination_reason = some reason;
  actual_move_out_date = coalesce_time move_out row.actual_move_out_date;
}

abbrev pub rent_columns : ℤ → LeaseRow → LeaseRow
rent_columns rent_amount row = record row {
  state = next_version (record row.state { rent_amount = rent_amount });
}

abbrev pub is_room : String → RoomRow → Bool
is_room room_id row = row.id == room_id && not row.deleted

abbrev pub is_tenant : String → TenantRow → Bool
is_tenant tenant_id row = row.id == tenant_id && not row.deleted

-- `CreateLeaseParams`; the identifier is drawn.
pub record NewLease : Type 0 where
  pub tenant_id : String
  pub room_id : String
  pub property_id : String
  pub rent_amount : ℤ
  pub start_date : Time
  pub end_date : Time
  pub rent_billing_cadence : String
  pub electricity_billing_cadence : String
  pub starting_meter_reading : ℤ
  pub deposit_amount : ℤ
  pub notes : Option String

-- The defaults of the table are an active lease of version 1.
abbrev pub new_lease_row : String → NewLease → LeaseRow
new_lease_row id p = record {
  state = record {
    id = id;
    tenant_id = p.tenant_id;
    room_id = p.room_id;
    property_id = p.property_id;
    rent_amount = p.rent_amount;
    start_date = midnight p.start_date.date;
    end_date = midnight p.end_date.date;
    rent_billing_cadence = p.rent_billing_cadence;
    electricity_billing_cadence = p.electricity_billing_cadence;
    status = status_active;
    deposit_amount = p.deposit_amount;
    deposit_refund_amount = none;
    deposit_deduction_amount = none;
    deposit_status = deposit_status_held;
    deposit_deduction_reason = none;
    version = pos 1;
  };
  actual_move_out_date = none;
  starting_meter_reading = some p.starting_meter_reading;
  notes = p.notes;
  termination_reason = none;
  deleted = false;
}

-- `CreateBillParams`.
pub record NewBill : Type 0 where
  pub lease_id : String
  pub tenant_id : String
  pub room_id : String
  pub property_id : String
  pub type : String
  pub amount : Option ℤ
  pub period_start : Date
  pub period_end : Date
  pub due_date : Date
  pub status : String

abbrev pub new_bill_row : {F : Type 0} → String → Time → NewBill → BillRow F
new_bill_row id now p = record {
  state = record {
    id = id;
    lease_id = p.lease_id;
    tenant_id = p.tenant_id;
    room_id = p.room_id;
    property_id = p.property_id;
    type = p.type;
    amount = p.amount;
    period_start = midnight p.period_start;
    period_end = midnight p.period_end;
    due_date = midnight p.due_date;
    status = p.status;
    payment_method = none;
    paid_at = none;
    paid_amount = none;
    meter_previous_reading = none;
    meter_current_reading = none;
    meter_unit_price = none;
    meter_recorded_at = none;
    written_off_reason = none;
    overdue_notice_count = pos 0;
    created_at = now;
    updated_at = now;
    version = pos 1;
  };
  deleted = false;
}

-- The rows of the INSERTs, one after the other.
unfoldable pub new_bill_rows :
    {F : Type 0} → (ℕ → String) → ℕ → Time → List NewBill → List (BillRow F)
new_bill_rows ids drawn now [] = []
new_bill_rows ids drawn now (p ∷ ps) =
    new_bill_row (ids drawn) now p ∷ new_bill_rows ids (suc drawn) now ps

unfoldable pub drawn_after : ℕ → List NewBill → ℕ
drawn_after drawn [] = drawn
drawn_after drawn (p ∷ ps) = drawn_after (suc drawn) ps

module _ {F : Type 0} where
  unfoldable pub find_lease_by_id_for_update : String → Script F RepositoryError LeaseRow
  find_lease_by_id_for_update lease_id = query (λ db. found (find (is_lease lease_id) db.leases))

  -- `UPDATE leases SET ... WHERE id = $1 AND deleted_at IS NULL RETURNING ...`
  unfoldable pub update_lease : String → (LeaseRow → LeaseRow) → Script F RepositoryError LeaseRow
  update_lease lease_id f = statement (λ s. (
    record s { db = record s.db { leases = update_where (is_lease lease_id) f s.db.leases } },
    found (find (is_lease lease_id) (update_where (is_lease lease_id) f s.db.leases)),
  ))

  abbrev pub settle_deposit_row : String → ℤ → ℤ → Option String → Script F RepositoryError LeaseRow
  settle_deposit_row lease_id refund deduction reason =
      update_lease lease_id (settle_columns refund deduction reason)

  abbrev pub terminate_lease :
      String → Date → String → Option Time → Script F RepositoryError LeaseRow
  terminate_lease lease_id end_date reason move_out =
      update_lease lease_id (terminate_columns end_date reason move_out)

  abbrev pub force_terminate_lease :
      String → Date → String → String → Option Time → Script F RepositoryError LeaseRow
  force_terminate_lease lease_id end_date reason deposit_status move_out =
      update_lease lease_id (force_terminate_columns end_date reason deposit_status move_out)

  abbrev pub update_lease_conditions : String → ℤ → Script F RepositoryError LeaseRow
  update_lease_conditions lease_id rent_amount = update_lease lease_id (rent_columns rent_amount)

  abbrev pub is_bill_of : String → BillRow F → Bool
  is_bill_of lease_id row = row.state.lease_id == lease_id && not row.deleted

  -- The order of the rows is left out: no service depends on it.
  unfoldable pub list_bills_by_lease_id : String → Script F RepositoryError (List (BillRow F))
  list_bills_by_lease_id lease_id = query (λ db. ok (select (is_bill_of lease_id) db.bills))

  -- An UPDATE of bills whose number of rows nobody reads.
  unfoldable pub change_bills :
      (BillRow F → Bool) → (BillRow F → BillRow F) → Script F RepositoryError (Unit {0})
  change_bills p f =
      statement
        (λ s. (record s { db = record s.db { bills = update_where p f s.db.bills } }, ok tt))

  abbrev pub with_status : String → Time → BillRow F → BillRow F
  with_status status now row = record row {
    state = record row.state {
      status = status;
      updated_at = now;
      version = row.state.version +ℤ pos 1;
    };
  }

  abbrev pub write_off_columns : String → Time → BillRow F → BillRow F
  write_off_columns reason now row = record row {
    state = record row.state {
      status = status_written_off;
      written_off_reason = some reason;
      updated_at = now;
      version = row.state.version +ℤ pos 1;
    };
  }

  abbrev pub is_written_off_by : List String → BillRow F → Bool
  is_written_off_by bill_ids row =
      has bill_ids row.state.id
      && not (row.state.status == status_paid || row.state.status == status_voided)
      && not row.deleted

  -- Without a bill, the statement is not sent.
  unfoldable pub write_off_bills : List String → String → Script F RepositoryError (Unit {0})
  unfolding change_bills
  write_off_bills [] reason s = (s, ok tt)
  write_off_bills (id ∷ ids) reason s =
      change_bills (is_written_off_by (id ∷ ids)) (write_off_columns reason s.now) s

  abbrev pub is_pending : BillRow F → Bool
  is_pending row =
      row.state.status == status_pending_payment || row.state.status == status_pending_meter

  abbrev pub is_rent_due_from : String → Date → BillRow F → Bool
  is_rent_due_from lease_id due_date row =
      is_bill_of lease_id row
      && row.state.type == type_rent
      && not (before row.state.due_date.date due_date)

  abbrev pub is_locked : String → Date → BillRow F → Bool
  is_locked lease_id due_date row =
      is_rent_due_from lease_id due_date row
      && not (is_pending row || row.state.status == status_voided)

  unfoldable pub has_locked_rent_bills_from_due_date : String → Date → Script F RepositoryError Bool
  has_locked_rent_bills_from_due_date lease_id due_date =
      query (λ db. ok (exists (is_locked lease_id due_date) db.bills))

  abbrev pub is_voided_rent : String → Date → BillRow F → Bool
  is_voided_rent lease_id due_date row = is_rent_due_from lease_id due_date row && is_pending row

  unfoldable pub void_rent_bills_from_due_date : String → Date → Script F RepositoryError (Unit {0})
  unfolding change_bills
  void_rent_bills_from_due_date lease_id due_date s =
      change_bills (is_voided_rent lease_id due_date) (with_status status_voided s.now) s

  abbrev pub is_overlapping : String → Date → BillRow F → Bool
  is_overlapping lease_id boundary row =
      is_bill_of lease_id row && not (before row.state.period_end.date boundary) && is_pending row

  unfoldable pub void_bills_overlapping_or_after :
      String → Date → Script F RepositoryError (Unit {0})
  unfolding change_bills
  void_bills_overlapping_or_after lease_id boundary s =
      change_bills (is_overlapping lease_id boundary) (with_status status_voided s.now) s

  abbrev pub with_bills : List NewBill → Session F → Session F
  with_bills ps s = record s {
    db = record s.db { bills = s.db.bills ++ new_bill_rows s.ids s.drawn s.now ps };
    drawn = drawn_after s.drawn ps;
  }

  -- The INSERTs of one call, none without a bill; a fault of one stops all.
  unfoldable pub create_bills : List NewBill → Script F RepositoryError (Unit {0})
  create_bills [] s = (s, ok tt)
  create_bills (p ∷ ps) s = statement (λ s. (with_bills (p ∷ ps) s, ok tt)) s

  unfoldable pub create_lease : NewLease → Script F RepositoryError LeaseRow
  create_lease p = statement (λ s. (
    record s {
      db = record s.db { leases = s.db.leases ++ (new_lease_row (s.ids s.drawn) p ∷ []) };
      drawn = suc s.drawn;
    },
    ok (new_lease_row (s.ids s.drawn) p),
  ))

  unfoldable pub find_tenant_by_id : String → Script F RepositoryError TenantRow
  find_tenant_by_id tenant_id = query (λ db. found (find (is_tenant tenant_id) db.tenants))

  abbrev pub with_property : RoomRow → Option (PropertyRow F) → Option (RoomRow × PropertyRow F)
  with_property room none = none
  with_property room (some property) = some (room, property)

  -- `JOIN properties p ON p.id = r.property_id ... AND p.deleted_at IS NULL`
  abbrev pub joined : Database F → Option RoomRow → Result RepositoryError (RoomRow × PropertyRow F)
  joined db none = err not_found
  joined db (some room) =
      found (with_property room (find (is_property room.property_id) db.properties))

  unfoldable pub find_room_by_id_for_update :
      String → Script F RepositoryError (RoomRow × PropertyRow F)
  find_room_by_id_for_update room_id = query (λ db. joined db (find (is_room room_id) db.rooms))
