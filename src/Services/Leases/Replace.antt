-- ===== src/Services/Leases/Replace.antt =====
-- internal/application/lease/replace_lease.go. `occurred_at` is the result of `time.Now` in the
-- transaction; the zero time of an input is `none`.
pub mod Boundary
pub mod Stored
pub mod Proof
use stds_backend_go.Prelude.{
  ◌+◌, Bool, true, false, not, ◌&&◌, ◌||◌, String, List, [], ◌∷◌, ◌++◌, Option, none, some, ◌==◌,
  eqb, if◌then◌else◌, Result, ok, err,
}
use stds_backend_go.Prelude.Int.{ℤ, pos, eqb_ℤ}
use stds_backend_go.Prelude.Text.{trim_space}
use stds_backend_go.GoTime.{Date, Time, before, next_day, prev_day}
use stds_backend_go.Lease.Defs
use stds_backend_go.Db.Rows.{LeaseRow, lease_replaced}
use stds_backend_go.Db.Script.{Script, pure, lift, stop_if, catch, record_event, ◌>>=◌, ◌>>◌}
use stds_backend_go.Db.Roles.{Role, role_of, may_access}
use stds_backend_go.Db.Leases.{
  midnight, find_lease_by_id_for_update, terminate_lease, list_bills_by_lease_id,
  void_bills_overlapping_or_after, find_tenant_by_id, find_room_by_id_for_update,
}
use stds_backend_go.Services.Dates.{append_text}
use stds_backend_go.Services.Leases.Errors.{
  ServiceError, forbidden, bad_request, end_date_required, lease_not_active,
  replacement_not_at_boundary, replacement_has_unsettled_bills, replacement_scope_mismatch,
  replacement_deposit_unsupported, internal, map_lease_lookup_error, map_tenant_lookup_error,
  map_room_lookup_error, normalize_lease_id, require_writer, domain,
}
use stds_backend_go.Services.Leases.Terminate.{some_left, lease_terminated_event}
use stds_backend_go.Services.Leases.Create.{store_lease, lease_created_event}
use stds_backend_go.Services.Leases.Replace.Boundary.{
  same_day, is_replacement_boundary, unsettled_before_boundary,
}

abbrev pub replacement_deposit_carry_over : String
replacement_deposit_carry_over = "carry_over"

-- `if b { fields = append(fields, name) }`
abbrev pub field_if : Bool → String → List String
field_if true name = name ∷ []
field_if false name = []

unfoldable pub replacement_changed_fields : LeaseRow → LeaseRow → List String
replacement_changed_fields old new =
    field_if (not (eqb_ℤ old.state.rent_amount new.state.rent_amount)) "rent_amount"
    ++ (field_if (not (same_day old.state.end_date.date new.state.end_date.date)) "end_date"
        ++ (field_if
              (not (old.state.electricity_billing_cadence == new.state.electricity_billing_cadence))
              "electricity_billing_cadence"
            ++ field_if (not (old.state.rent_billing_cadence == new.state.rent_billing_cadence))
                "rent_billing_cadence"))

-- The terms of the successor that `Execute` has read from its input.
pub record Replacement : Type 0 where
  pub lease_id : String
  pub reason : String
  pub effective_start : Date
  pub new_end_date : Date
  pub rent_amount : ℤ
  pub rent_billing_cadence : String
  pub electricity_billing_cadence : String
  pub notes : Option String

-- The state that is handed to `New`.
unfoldable pub successor_state : Replacement → LeaseRow → Defs.State
successor_state r current = record {
  id = "";
  tenant_id = current.state.tenant_id;
  room_id = current.state.room_id;
  property_id = current.state.property_id;
  rent_amount = r.rent_amount;
  start_date = midnight r.effective_start;
  end_date = midnight r.new_end_date;
  rent_billing_cadence = r.rent_billing_cadence;
  electricity_billing_cadence = r.electricity_billing_cadence;
  status = "";
  deposit_amount = current.state.deposit_amount;
  deposit_refund_amount = none;
  deposit_deduction_amount = none;
  deposit_status = "";
  deposit_deduction_reason = none;
  version = pos 0;
}

-- `ReplaceLeaseResult`, but for what is the replacement's own.
pub record ReplaceLeaseResult : Type 0 where
  pub old_lease : LeaseRow
  pub new_lease : LeaseRow
  pub changed_fields : List String

module _ {F : Type 0} where
  -- The writes.
  unfoldable pub store_replacement :
      Replacement → LeaseRow → Defs.State → Time → Script F ServiceError ReplaceLeaseResult
  unfolding store_lease
  store_replacement r current state occurred_at = do
    terminated ← catch internal (
        terminate_lease r.lease_id (prev_day r.effective_start)
          (append_text "lease replacement: " r.reason) none)
    catch internal (void_bills_overlapping_or_after r.lease_id r.effective_start)
    successor ← store_lease state (pos 0) r.notes
    record_event (lease_terminated_event terminated false true occurred_at)
    record_event (lease_created_event successor occurred_at)
    record_event (
        lease_replaced terminated.state.id successor.state.id successor.state.room_id
          successor.state.property_id successor.state.tenant_id r.reason r.effective_start
          (replacement_changed_fields current successor) replacement_deposit_carry_over occurred_at)
    pure (record {
      old_lease = terminated;
      new_lease = successor;
      changed_fields = replacement_changed_fields current successor;
    })

  -- The checks of the room and the bills, and what follows them.
  unfoldable pub replace_checked :
      Replacement → LeaseRow → Time → Script F ServiceError ReplaceLeaseResult
  unfolding store_replacement successor_state
  replace_checked r current occurred_at = do
    tenant ← catch map_tenant_lookup_error (find_tenant_by_id current.state.tenant_id)
    (room, property) ←
        catch map_room_lookup_error (find_room_by_id_for_update current.state.room_id)
    stop_if (not (room.property_id == current.state.property_id)) replacement_scope_mismatch
    bills ← catch internal (list_bills_by_lease_id r.lease_id)
    stop_if (not (is_replacement_boundary current bills r.effective_start))
        replacement_not_at_boundary
    stop_if (some_left (unsettled_before_boundary bills r.effective_start))
        replacement_has_unsettled_bills
    state ← domain (Defs.new (successor_state r current))
    stop_if (before (prev_day r.effective_start) current.state.start_date.date)
        replacement_not_at_boundary
    store_replacement r current state occurred_at

  -- The function of the transaction.
  unfoldable pub replace_lease :
      Role → List String → Replacement → Time → Script F ServiceError ReplaceLeaseResult
  unfolding replace_checked
  replace_lease role assigned r occurred_at = do
    current ← catch map_lease_lookup_error (find_lease_by_id_for_update r.lease_id)
    stop_if (not (may_access role assigned current.state.property_id)) forbidden
    stop_if (not (current.state.status == Defs.status_active)) lease_not_active
    stop_if (not (current.state.deposit_status == Defs.deposit_status_held))
        replacement_deposit_unsupported
    replace_checked r current occurred_at

pub record ReplaceLeaseInput : Type 0 where
  pub actor_role : String
  pub assigned_property_ids : List String
  pub lease_id : String
  pub reason : String
  pub effective_start_date : Option Time
  pub deposit_handling : String
  pub new_end_date : Option Time
  pub new_rent_amount : ℤ
  pub new_rent_billing_cadence : String
  pub new_cadence : String
  pub new_notes : Option String

unfoldable pub day_of : ServiceError → Option Time → Result ServiceError Date
day_of e none = err e
day_of e (some time) = ok time.date

-- `case "cadence_change", "renewal", "contract_reissue", "other_exception"`
unfoldable pub is_replacement_reason : String → Bool
is_replacement_reason reason =
    reason == "cadence_change"
    || reason == "renewal"
    || reason == "contract_reissue"
    || reason == "other_exception"

-- `Execute`: the checks before the transaction, and its function.
unfoldable pub execute :
    {F : Type 0}
    → (String → Bool)
    → Time
    → ReplaceLeaseInput
    → Script F ServiceError ReplaceLeaseResult
execute is_uuid occurred_at input = do
  let reason = trim_space input.reason
  let rent_cadence = trim_space input.new_rent_billing_cadence
  lease_id ← lift (normalize_lease_id is_uuid input.lease_id)
  effective_start ← lift (day_of bad_request input.effective_start_date)
  new_end_date ← lift (day_of end_date_required input.new_end_date)
  stop_if (not (trim_space input.deposit_handling == replacement_deposit_carry_over))
      replacement_deposit_unsupported
  role ← lift (require_writer (role_of input.actor_role))
  stop_if (not (is_replacement_reason reason)) bad_request
  stop_if (rent_cadence == "") bad_request
  replace_lease role input.assigned_property_ids
      (record {
        lease_id = lease_id;
        reason = reason;
        effective_start = effective_start;
        new_end_date = new_end_date;
        rent_amount = input.new_rent_amount;
        rent_billing_cadence = rent_cadence;
        electricity_billing_cadence = trim_space input.new_cadence;
        notes = input.new_notes;
      })
      occurred_at
