-- ===== src/Services/Leases/Force.antt =====
-- internal/application/lease/terminate_lease.go: the forced termination. `occurred_at` is the result
-- of `time.Now` in the transaction; the zero time of an input is `none`.
pub mod Bills
pub mod Closed
pub mod Proof
pub mod Again
use stds_backend_go.Prelude.{
  Bool, true, false, not, ◌&&◌, ◌||◌, String, List, [], ◌∷◌, Option, none, some, ◌==◌,
  if◌then◌else◌, Result, ok, err,
}
use stds_backend_go.Prelude.Int.{ℤ, pos, eqb_ℤ}
use stds_backend_go.Prelude.Text.{trim_space}
use stds_backend_go.GoTime.{Date, Time, before}
use stds_backend_go.Lease.Defs
use stds_backend_go.Lease.Defs.{force_termination_deposit_write_off}
use stds_backend_go.Db.Rows.{LeaseRow, EntryRow, deposit_written_off}
use stds_backend_go.Db.Script.{
  Script, RepositoryError, not_found, concurrent_update, other_error, pure, lift, stop_if, catch,
  record_event, ◌>>=◌, ◌>>◌,
}
use stds_backend_go.Db.Roles.{Role, role_of, may_access}
use stds_backend_go.Db.Leases.{
  midnight, find_lease_by_id_for_update, force_terminate_lease, list_bills_by_lease_id,
  write_off_bills,
}
use stds_backend_go.Db.Forced.{
  Detail, create_force_termination, create_force_termination_bills,
  mark_force_termination_bills_done, complete_force_termination, find_force_termination_by_id,
}
use stds_backend_go.Services.Dates.{append_text, accounting_source_date}
use stds_backend_go.Services.Leases.Errors.{
  ServiceError, forbidden, unauthorized, bad_request, internal_server_error,
  forbidden_force_termination, force_termination_reason_required,
  force_termination_deposit_required, force_termination_not_found, internal, zero_uuid,
  map_lease_lookup_error, normalize_lease_id, require_manager, without_rent_cadence, method_result,
  domain,
}
use stds_backend_go.Services.Leases.Deposit.{entry_if}
use stds_backend_go.Services.Leases.Terminate.{unpaid_bill_ids, lease_terminated_event}

unfoldable pub map_force_termination_lookup_error : RepositoryError → ServiceError
map_force_termination_lookup_error not_found = force_termination_not_found
map_force_termination_lookup_error concurrent_update = internal_server_error
map_force_termination_lookup_error other_error = internal_server_error

unfoldable pub write_off_description : String → String
write_off_description reason = if reason == "" then "強制終止押金沒收" else append_text "強制終止押金沒收：" reason

-- The entry of a deposit that is written off.
unfoldable pub write_off_entry : LeaseRow → String → String → Date → EntryRow
unfolding write_off_description
write_off_entry lease force_termination_id reason termination_date =
    let day = accounting_source_date (midnight termination_date) in
    let description = write_off_description reason in
    record {
      property_account_id = "";
      category = "deposit_deduction";
      accounting_title_code = "4601";
      amount = lease.state.deposit_amount;
      description = some description;
      source_ref = deposit_written_off lease.state.id force_termination_id reason;
      year = day.year;
      month = day.month;
      source_date = some day;
      period_label = none;
      display_note = some description;
    }

-- What `Execute` has read from its input.
pub record Order : Type 0 where
  pub lease_id : String
  pub actor_user_id : String
  pub reason : String
  pub deposit_handling : String
  pub termination_date : Date
  pub actual_move_out_date : Option Time

module _ {F : Type 0} where
  -- The records of the bills, and the bills.
  unfoldable pub close_bills : String → List String → String → Script F ServiceError (Unit {0})
  close_bills force_termination_id bill_ids reason = do
    catch internal (create_force_termination_bills force_termination_id bill_ids)
    catch internal (write_off_bills bill_ids reason)
    catch internal (mark_force_termination_bills_done force_termination_id bill_ids)

  -- What follows the bills.
  unfoldable pub close_lease : Order → String → String → Time → Script F ServiceError Detail
  close_lease order force_termination_id deposit_status occurred_at = do
    terminated ← catch map_lease_lookup_error (
        force_terminate_lease order.lease_id order.termination_date order.reason deposit_status
          order.actual_move_out_date)
    catch internal (complete_force_termination force_termination_id)
    entry_if
        (order.deposit_handling == force_termination_deposit_write_off
          && not (eqb_ℤ terminated.state.deposit_amount (pos 0)))
        terminated.state.property_id
        (write_off_entry terminated force_termination_id order.reason order.termination_date)
    detail ←
        catch map_force_termination_lookup_error (find_force_termination_by_id force_termination_id)
    record_event (lease_terminated_event terminated true false occurred_at)
    pure detail

  -- What follows the call of the aggregate.
  unfoldable pub store_forced : Order → String → Time → Script F ServiceError Detail
  unfolding close_bills close_lease
  store_forced order deposit_status occurred_at = do
    bills ← catch internal (list_bills_by_lease_id order.lease_id)
    created ← catch internal (
        create_force_termination order.lease_id order.actor_user_id order.reason
          order.deposit_handling)
    close_bills created.id (unpaid_bill_ids bills) order.reason
    close_lease order created.id deposit_status occurred_at

  -- The function of the transaction.
  unfoldable pub force_lease : Role → List String → Order → Time → Script F ServiceError Detail
  unfolding store_forced
  force_lease role assigned order occurred_at = do
    current ← catch map_lease_lookup_error (find_lease_by_id_for_update order.lease_id)
    stop_if (not (may_access role assigned current.state.property_id)) forbidden
    stop_if (before order.termination_date current.state.start_date.date) bad_request
    lease ← domain (Defs.rehydrate (without_rent_cadence current))
    forced ← domain (method_result (Defs.force_terminate order.reason order.deposit_handling lease))
    store_forced order forced.deposit_status occurred_at

pub record ForceTerminateLeaseInput : Type 0 where
  pub actor_role : String
  pub actor_user_id : String
  pub assigned_property_ids : List String
  pub lease_id : String
  pub termination_date : Option Time
  pub actual_move_out_date : Option Time
  pub reason : String
  pub deposit_handling : String

unfoldable pub require_user : (String → Bool) → String → Result ServiceError String
require_user is_uuid value =
    let id = trim_space value in
    if id == "" || id == zero_uuid || not (is_uuid id) then err unauthorized else ok id

unfoldable pub require_text : ServiceError → String → Result ServiceError String
require_text e value = let text = trim_space value in if text == "" then err e else ok text

unfoldable pub require_date : Option Time → Result ServiceError Date
require_date none = err bad_request
require_date (some time) = ok time.date

unfoldable pub normalized : Option Time → Option Time
normalized none = none
normalized (some time) = some (midnight time.date)

-- `Execute`: the checks before the transaction, and its function.
unfoldable pub execute :
    {F : Type 0} → (String → Bool) → Time → ForceTerminateLeaseInput → Script F ServiceError Detail
execute is_uuid occurred_at input = do
  lease_id ← lift (normalize_lease_id is_uuid input.lease_id)
  actor_user_id ← lift (require_user is_uuid input.actor_user_id)
  role ← lift (require_manager forbidden_force_termination (role_of input.actor_role))
  reason ← lift (require_text force_termination_reason_required input.reason)
  deposit_handling ← lift (require_text force_termination_deposit_required input.deposit_handling)
  termination_date ← lift (require_date input.termination_date)
  force_lease role input.assigned_property_ids
      (record {
        lease_id = lease_id;
        actor_user_id = actor_user_id;
        reason = reason;
        deposit_handling = deposit_handling;
        termination_date = termination_date;
        actual_move_out_date = normalized input.actual_move_out_date;
      })
      occurred_at

pub record GetForceTerminationInput : Type 0 where
  pub actor_role : String
  pub force_termination_id : String

unfoldable pub normalize_force_termination_id :
    (String → Bool) → String → Result ServiceError String
normalize_force_termination_id is_uuid value =
    let id = trim_space value in
    if id == "" || id == zero_uuid
    then err force_termination_not_found
    else if is_uuid id
    then ok id
    else err bad_request

-- `GetForceTerminationService.Execute`.
unfoldable pub get_force_termination :
    {F : Type 0} → (String → Bool) → GetForceTerminationInput → Script F ServiceError Detail
get_force_termination is_uuid input = do
  id ← lift (normalize_force_termination_id is_uuid input.force_termination_id)
  role ← lift (require_manager forbidden (role_of input.actor_role))
  catch map_force_termination_lookup_error (find_force_termination_by_id id)
