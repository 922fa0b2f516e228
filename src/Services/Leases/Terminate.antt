-- ===== src/Services/Leases/Terminate.antt =====
-- internal/application/lease/terminate_lease.go: the normal termination. `occurred_at` is the result
-- of `time.Now` in the transaction.
pub mod Proof
use stds_backend_go.Prelude.{
  Bool, true, false, not, ◌||◌, String, List, [], ◌∷◌, Option, none, some, ◌==◌, if◌then◌else◌,
}
use stds_backend_go.Prelude.Int.{ℤ, pos}
use stds_backend_go.GoTime.{Time}
use stds_backend_go.Lease.Defs
use stds_backend_go.Bill.Defs.{status_paid, status_voided, status_written_off}
use stds_backend_go.Db.Rows.{LeaseRow, BillRow, Event, lease_terminated}
use stds_backend_go.Db.Script.{Script, pure, lift, stop_if, catch, record_event, ◌>>=◌, ◌>>◌}
use stds_backend_go.Db.Roles.{Role, role_of, may_access}
use stds_backend_go.Db.Leases.{
  find_lease_by_id_for_update, settle_deposit_row, terminate_lease, list_bills_by_lease_id,
}
use stds_backend_go.Services.Leases.Errors.{
  ServiceError, forbidden, has_unpaid_bills, internal, map_lease_lookup_error, normalize_lease_id,
  require_writer, int_value, without_rent_cadence, method_result, domain,
}
use stds_backend_go.Services.Leases.Deposit.{deposit_reason_value, book_deposit}

-- `case billStatusPaid, billStatusVoided, billStatusWrittenOff`
abbrev pub is_closed : String → Bool
is_closed status = status == status_paid || status == status_voided || status == status_written_off

-- `unpaidBillIDs`.
unfoldable pub unpaid_bill_ids : {F : Type 0} → List (BillRow F) → List String
unpaid_bill_ids [] = []
unpaid_bill_ids (bill ∷ bills) =
    let ids = unpaid_bill_ids bills in
    if is_closed bill.state.status then ids else bill.state.id ∷ ids

-- `len(ids) > 0`
abbrev pub some_left : List String → Bool
some_left [] = false
some_left (id ∷ ids) = true

module _ {F : Type 0} where
  abbrev pub lease_terminated_event : LeaseRow → Bool → Bool → Time → Event F
  lease_terminated_event row forced is_replacement occurred_at =
      lease_terminated row.state.id row.state.room_id row.state.property_id row.state.tenant_id
        forced is_replacement occurred_at

  -- What follows the calls of the aggregate, which has set the amounts.
  unfoldable pub store_termination :
      String → ℤ → ℤ → Option String → Time → Defs.State → Script F ServiceError LeaseRow
  unfolding book_deposit
  store_termination lease_id refund deduction reason occurred_at state = do
    settled ← catch map_lease_lookup_error (
        settle_deposit_row lease_id (int_value state.deposit_refund_amount)
          (int_value state.deposit_deduction_amount) state.deposit_deduction_reason)
    terminated ←
        catch map_lease_lookup_error
          (terminate_lease lease_id occurred_at.date "normal termination" none)
    book_deposit settled refund deduction (deposit_reason_value reason) occurred_at
    record_event (lease_terminated_event terminated false false occurred_at)
    pure terminated

  -- The function of the transaction.
  unfoldable pub end_lease :
      Role → List String → String → ℤ → ℤ → Option String → Time → Script F ServiceError LeaseRow
  unfolding store_termination
  end_lease role assigned lease_id refund deduction reason occurred_at = do
    current ← catch map_lease_lookup_error (find_lease_by_id_for_update lease_id)
    stop_if (not (may_access role assigned current.state.property_id)) forbidden
    bills ← catch internal (list_bills_by_lease_id lease_id)
    stop_if (some_left (unpaid_bill_ids bills)) has_unpaid_bills
    lease ← domain (Defs.rehydrate (without_rent_cadence current))
    settled ← domain (method_result (Defs.settle_deposit refund deduction reason lease))
    terminated ← domain (method_result (Defs.terminate settled))
    store_termination lease_id refund deduction reason occurred_at terminated

pub record TerminateLeaseInput : Type 0 where
  pub actor_role : String
  pub assigned_property_ids : List String
  pub lease_id : String
  pub refund_amount : Option ℤ
  pub deduction_amount : Option ℤ
  pub deduction_reason : Option String

-- `Execute`: the checks before the transaction, and its function.
unfoldable pub execute :
    {F : Type 0} → (String → Bool) → Time → TerminateLeaseInput → Script F ServiceError LeaseRow
execute is_uuid occurred_at input = do
  lease_id ← lift (normalize_lease_id is_uuid input.lease_id)
  role ← lift (require_writer (role_of input.actor_role))
  end_lease role input.assigned_property_ids lease_id (int_value input.refund_amount)
      (int_value input.deduction_amount) input.deduction_reason occurred_at
