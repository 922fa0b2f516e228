-- ===== src/Services/Leases/Rent.antt =====
-- internal/application/lease/update_lease.go. `occurred_at` is the result of `time.Now` in the
-- transaction; of the patch, only the rent may be given. The zero time of an input is `none`.
pub mod Stored
pub mod Proof
use stds_backend_go.Prelude.{
  Bool, true, false, not, ◌||◌, String, List, Option, none, some, ◌==◌, if◌then◌else◌, Result, ok,
  err,
}
use stds_backend_go.Prelude.Int.{ℤ, eqb_ℤ}
use stds_backend_go.GoTime.{Date, Time, before}
use stds_backend_go.Periods.Defs.{
  build_rent_billing_periods_from_anchor, next_rent_payment_date_after,
}
use stds_backend_go.Lease.Defs
use stds_backend_go.Db.Rows.{LeaseRow, lease_condition_changed}
use stds_backend_go.Db.Script.{Script, pure, lift, stop_if, catch, record_event, ◌>>=◌, ◌>>◌}
use stds_backend_go.Db.Roles.{Role, role_of, may_access}
use stds_backend_go.Db.Leases.{
  midnight, find_lease_by_id_for_update, update_lease_conditions,
  has_locked_rent_bills_from_due_date, void_rent_bills_from_due_date, create_bills,
}
use stds_backend_go.Services.Leases.Errors.{
  ServiceError, forbidden, unsupported_update, update_has_locked_bills, internal,
  map_lease_lookup_error, normalize_lease_id, require_manager, method_result, domain,
}
use stds_backend_go.Services.Leases.Create.{map_period_error, build_rent_bill_seeds}

-- The state that the service hands to `Rehydrate`: it leaves out what a settlement has recorded.
abbrev pub without_settlement : LeaseRow → Defs.State
without_settlement row = record row.state {
  deposit_refund_amount = none;
  deposit_deduction_amount = none;
  deposit_deduction_reason = none;
}

module _ {F : Type 0} where
  -- `if !nextPaymentDate.After(current.EndDate)`, before the update of the lease.
  unfoldable pub check_locked : Bool → String → Date → Script F ServiceError (Unit {0})
  check_locked true lease_id next s = (s, ok tt)
  check_locked false lease_id next s =
      (catch internal (has_locked_rent_bills_from_due_date lease_id next) >>= λ locked.
      stop_if locked update_has_locked_bills)
        s

  -- The same test after it.
  unfoldable pub regenerate :
      Bool → String → Date → LeaseRow → String → LeaseRow → Script F ServiceError (Unit {0})
  regenerate true lease_id next current cadence updated s = (s, ok tt)
  regenerate false lease_id next current cadence updated s =
      (do
        catch internal (void_rent_bills_from_due_date lease_id next)
        periods ← catch map_period_error (
            lift (
              build_rent_billing_periods_from_anchor (midnight next) current.state.end_date cadence
                current.state.start_date.date.day))
        catch internal (create_bills (build_rent_bill_seeds updated periods)))
        s

  -- What follows a change of the rent by the aggregate.
  unfoldable pub store_rent :
      String → Date → Time → LeaseRow → Defs.State → Script F ServiceError LeaseRow
  unfolding check_locked regenerate
  store_rent lease_id next occurred_at current state = do
    let past = before current.state.end_date.date next
    check_locked past lease_id next
    updated ← catch internal (update_lease_conditions lease_id state.rent_amount)
    regenerate past lease_id next current state.rent_billing_cadence updated
    record_event (
        lease_condition_changed updated.state.id updated.state.property_id updated.state.room_id
          updated.state.tenant_id updated.state.rent_amount next occurred_at)
    pure updated

  -- `if current.RentAmount == aggregate.State().RentAmount { return nil }`
  unfoldable pub unless_same :
      Bool → LeaseRow → Script F ServiceError LeaseRow → Script F ServiceError LeaseRow
  unless_same true current rest s = (s, ok current)
  unless_same false current rest s = rest s

  -- The function of the transaction.
  unfoldable pub change_rent :
      Role → List String → String → ℤ → Time → Time → Script F ServiceError LeaseRow
  unfolding store_rent
  change_rent role assigned lease_id rent operation_date occurred_at = do
    current ← catch map_lease_lookup_error (find_lease_by_id_for_update lease_id)
    stop_if (not (may_access role assigned current.state.property_id)) forbidden
    lease ← domain (Defs.rehydrate (without_settlement current))
    state ← domain (method_result (Defs.change_rent rent lease))
    unless_same (eqb_ℤ current.state.rent_amount state.rent_amount) current (
        store_rent lease_id
          (next_rent_payment_date_after current.state.start_date operation_date
            state.rent_billing_cadence)
          occurred_at current state)

pub record UpdateLeaseInput : Type 0 where
  pub actor_role : String
  pub assigned_property_ids : List String
  pub lease_id : String
  pub rent_amount : Option ℤ
  pub end_date : Option Time
  pub rent_billing_cadence : Option String
  pub operation_date : Option Time

-- `if input.EndDate != nil`
unfoldable pub not_given : {A : Type 0} → Option A → Result ServiceError (Unit {0})
not_given none = ok tt
not_given (some value) = err unsupported_update

unfoldable pub given : {A : Type 0} → Option A → Result ServiceError A
given none = err unsupported_update
given (some value) = ok value

unfoldable pub or_now : Time → Option Time → Time
or_now now none = now
or_now now (some time) = time

-- `Execute`: the checks before the transaction, and its function.
unfoldable pub execute :
    {F : Type 0} → (String → Bool) → Time → UpdateLeaseInput → Script F ServiceError LeaseRow
execute is_uuid now input = do
  lease_id ← lift (normalize_lease_id is_uuid input.lease_id)
  lift (not_given input.end_date)
  lift (not_given input.rent_billing_cadence)
  rent ← lift (given input.rent_amount)
  role ← lift (require_manager forbidden (role_of input.actor_role))
  change_rent role input.assigned_property_ids lease_id rent (or_now now input.operation_date) now
