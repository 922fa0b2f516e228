-- ===== src/Services/Leases/Deposit.antt =====
-- internal/application/lease/update_deposit.go. `occurred_at` is the result of `time.Now` in the
-- transaction.
use stds_backend_go.Prelude.{Bool, true, false, not, String, List, Option, none, some, ok}
use stds_backend_go.Prelude.Int.{ℤ, pos, ltb_ℤ, sub_int}
use stds_backend_go.Prelude.Text.{trim_space}
use stds_backend_go.GoTime.{Time}
use stds_backend_go.Lease.Defs
use stds_backend_go.Db.Rows.{
  LeaseRow, EntryRow, deposit_refunded, deposit_deducted, deposit_refunded_event,
  deposit_deducted_event,
}
use stds_backend_go.Db.Script.{Script, pure, lift, stop_if, catch, record_if, ◌>>=◌, ◌>>◌}
use stds_backend_go.Db.Roles.{Role, role_of, may_access}
use stds_backend_go.Db.Bills.{create_accounting_entry}
use stds_backend_go.Db.Leases.{find_lease_by_id_for_update, settle_deposit_row}
use stds_backend_go.Services.Dates.{accounting_source_date}
use stds_backend_go.Services.Leases.Errors.{
  ServiceError, forbidden, internal, map_lease_lookup_error, normalize_lease_id, require_writer,
  int_value, without_rent_cadence, method_result, domain,
}

-- `depositReasonValue`.
unfoldable pub deposit_reason_value : Option String → String
deposit_reason_value none = ""
deposit_reason_value (some reason) = trim_space reason

unfoldable pub refund_entry : String → ℤ → Time → EntryRow
refund_entry lease_id refund occurred_at =
    let day = accounting_source_date occurred_at in
    record {
      property_account_id = "";
      category = "deposit_refund";
      accounting_title_code = "4602";
      amount = sub_int (pos 0) refund;
      description = none;
      source_ref = deposit_refunded lease_id;
      year = day.year;
      month = day.month;
      source_date = some day;
      period_label = none;
      display_note = some "押金退款";
    }

unfoldable pub deduction_entry : String → ℤ → String → Time → EntryRow
deduction_entry lease_id deduction reason occurred_at =
    let day = accounting_source_date occurred_at in
    record {
      property_account_id = "";
      category = "deposit_deduction";
      accounting_title_code = "4601";
      amount = deduction;
      description = some reason;
      source_ref = deposit_deducted lease_id reason;
      year = day.year;
      month = day.month;
      source_date = some day;
      period_label = none;
      display_note = some reason;
    }

module _ {F : Type 0} where
  -- `if amount > 0 { CreateDepositAccountingEntry(...) }`
  unfoldable pub entry_if : Bool → String → EntryRow → Script F ServiceError (Unit {0})
  entry_if false property_id entry s = (s, ok tt)
  entry_if true property_id entry s = catch internal (create_accounting_entry property_id entry) s

  -- Where both amounts are 0, neither test passes either.
  unfoldable pub record_deposit_accounting_entries :
      LeaseRow → ℤ → ℤ → String → Time → Script F ServiceError (Unit {0})
  record_deposit_accounting_entries lease refund deduction reason occurred_at = do
    entry_if (ltb_ℤ (pos 0) refund) lease.state.property_id
        (refund_entry lease.state.id refund occurred_at)
    entry_if (ltb_ℤ (pos 0) deduction) lease.state.property_id
        (deduction_entry lease.state.id deduction reason occurred_at)

  -- The entries and the events of a settlement.
  unfoldable pub book_deposit : LeaseRow → ℤ → ℤ → String → Time → Script F ServiceError (Unit {0})
  unfolding record_deposit_accounting_entries
  book_deposit lease refund deduction reason occurred_at = do
    record_deposit_accounting_entries lease refund deduction reason occurred_at
    record_if (ltb_ℤ (pos 0) refund)
        (deposit_refunded_event lease.state.id lease.state.property_id refund occurred_at)
    record_if (ltb_ℤ (pos 0) deduction)
        (deposit_deducted_event lease.state.id lease.state.property_id deduction reason occurred_at)

  -- What follows the settlement by the aggregate, which has set the amounts.
  unfoldable pub store_deposit :
      String → ℤ → ℤ → Option String → Time → Defs.State → Script F ServiceError LeaseRow
  unfolding book_deposit
  store_deposit lease_id refund deduction reason occurred_at state = do
    updated ← catch internal (
        settle_deposit_row lease_id (int_value state.deposit_refund_amount)
          (int_value state.deposit_deduction_amount) state.deposit_deduction_reason)
    book_deposit updated refund deduction (deposit_reason_value reason) occurred_at
    pure updated

  -- The function of the transaction.
  unfoldable pub settle_lease :
      Role → List String → String → ℤ → ℤ → Option String → Time → Script F ServiceError LeaseRow
  unfolding store_deposit
  settle_lease role assigned lease_id refund deduction reason occurred_at = do
    current ← catch map_lease_lookup_error (find_lease_by_id_for_update lease_id)
    stop_if (not (may_access role assigned current.state.property_id)) forbidden
    lease ← domain (Defs.rehydrate (without_rent_cadence current))
    settled ← domain (method_result (Defs.settle_deposit refund deduction reason lease))
    store_deposit lease_id refund deduction reason occurred_at settled

pub record UpdateDepositInput : Type 0 where
  pub actor_role : String
  pub assigned_property_ids : List String
  pub lease_id : String
  pub refund_amount : Option ℤ
  pub deduction_amount : Option ℤ
  pub deduction_reason : Option String

-- `Execute`: the checks before the transaction, and its function.
unfoldable pub update_deposit :
    {F : Type 0} → (String → Bool) → Time → UpdateDepositInput → Script F ServiceError LeaseRow
update_deposit is_uuid occurred_at input = do
  lease_id ← lift (normalize_lease_id is_uuid input.lease_id)
  role ← lift (require_writer (role_of input.actor_role))
  settle_lease role input.assigned_property_ids lease_id (int_value input.refund_amount)
      (int_value input.deduction_amount) input.deduction_reason occurred_at
