-- ===== src/Services/Leases/Create.antt =====
-- internal/application/lease/create_lease.go. `occurred_at` is the result of `time.Now` in the
-- transaction; the zero time of an input is `none`.
pub mod Proof
use stds_backend_go.Prelude.{
  Bool, true, false, not, ◌||◌, String, List, [], ◌∷◌, ◌++◌, map, Option, none, some, ◌==◌,
  if◌then◌else◌, Result, ok, err,
}
use stds_backend_go.Prelude.Int.{ℤ, pos, ltb_ℤ}
use stds_backend_go.Prelude.Text.{trim_space, trim_to_optional, string_value}
use stds_backend_go.GoTime.{Time}
use stds_backend_go.Periods
use stds_backend_go.Periods.Defs.{
  Period, PeriodError, build_rent_billing_periods, build_billing_periods, cadence_monthly,
}
use stds_backend_go.Lease.Defs
use stds_backend_go.Bill.Defs.{
  type_rent, type_electricity, status_pending_payment, status_pending_meter,
}
use stds_backend_go.Db.Rows.{LeaseRow, lease_created, Event}
use stds_backend_go.Db.Script.{Script, pure, lift, stop_if, catch, record_event, ◌>>=◌, ◌>>◌}
use stds_backend_go.Db.Roles.{Role, role_of, may_access}
use stds_backend_go.Db.Leases.{
  NewLease, NewBill, create_lease, create_bills, find_tenant_by_id, find_room_by_id_for_update,
}
use stds_backend_go.Services.Leases.Errors.{
  ServiceError, forbidden, bad_request, invalid_date_range, tenant_id_required, room_id_required,
  start_date_required, end_date_required, starting_meter_reading_invalid, room_not_vacant,
  internal_server_error, internal, zero_uuid, map_tenant_lookup_error, map_room_lookup_error,
  require_writer, domain,
}

-- `mapDomainError` of the errors of the period builders.
unfoldable pub map_period_error : PeriodError → ServiceError
map_period_error Periods.Defs.invalid_date_range = invalid_date_range
map_period_error Periods.Defs.invalid_billing_anchor = internal_server_error
map_period_error Periods.Defs.invalid_electricity_cadence = bad_request
map_period_error Periods.Defs.invalid_rent_cadence = bad_request

unfoldable pub rent_seed : LeaseRow → Period → NewBill
rent_seed lease period = record {
  lease_id = lease.state.id;
  tenant_id = lease.state.tenant_id;
  room_id = lease.state.room_id;
  property_id = lease.state.property_id;
  type = type_rent;
  amount = some lease.state.rent_amount;
  period_start = period.period_start;
  period_end = period.period_end;
  due_date = period.due_date;
  status = status_pending_payment;
}

unfoldable pub electricity_seed : LeaseRow → Period → NewBill
electricity_seed lease period = record {
  lease_id = lease.state.id;
  tenant_id = lease.state.tenant_id;
  room_id = lease.state.room_id;
  property_id = lease.state.property_id;
  type = type_electricity;
  amount = none;
  period_start = period.period_start;
  period_end = period.period_end;
  due_date = period.due_date;
  status = status_pending_meter;
}

-- `buildRentBillSeeds`.
unfoldable pub build_rent_bill_seeds : LeaseRow → List Period → List NewBill
build_rent_bill_seeds lease [] = []
build_rent_bill_seeds lease (period ∷ periods) =
    rent_seed lease period ∷ build_rent_bill_seeds lease periods

-- The second loop of `buildBillSeeds`.
unfoldable pub electricity_bill_seeds : LeaseRow → List Period → List NewBill
electricity_bill_seeds lease [] = []
electricity_bill_seeds lease (period ∷ periods) =
    electricity_seed lease period ∷ electricity_bill_seeds lease periods

unfoldable pub build_bill_seeds : LeaseRow → List Period → List Period → List NewBill
build_bill_seeds lease rent_periods electricity_periods =
    build_rent_bill_seeds lease rent_periods ++ electricity_bill_seeds lease electricity_periods

-- The terms that `Execute` reads from its input.
pub record Terms : Type 0 where
  pub tenant_id : String
  pub room_id : String
  pub rent_amount : ℤ
  pub start_date : Time
  pub end_date : Time
  pub deposit_amount : ℤ
  pub rent_billing_cadence : String
  pub electricity_billing_cadence : Option String
  pub starting_meter_reading : ℤ
  pub notes : Option String

-- The cadences with their defaults.
unfoldable pub rent_cadence : String → String
rent_cadence cadence = if trim_space cadence == "" then cadence_monthly else trim_space cadence

unfoldable pub electricity_cadence : Option String → String → String
electricity_cadence none default = default
electricity_cadence (some cadence) default = trim_space cadence

-- `trimmedOptionalString`.
unfoldable pub trimmed_optional_string : Option String → Option String
trimmed_optional_string none = none
trimmed_optional_string (some value) = trim_to_optional value

-- The state that is handed to `New`.
unfoldable pub new_state : Terms → String → String → Defs.State
new_state terms property_id default_cadence = record {
  id = "";
  tenant_id = terms.tenant_id;
  room_id = terms.room_id;
  property_id = property_id;
  rent_amount = terms.rent_amount;
  start_date = terms.start_date;
  end_date = terms.end_date;
  rent_billing_cadence = rent_cadence terms.rent_billing_cadence;
  electricity_billing_cadence =
      electricity_cadence terms.electricity_billing_cadence default_cadence;
  status = "";
  deposit_amount = terms.deposit_amount;
  deposit_refund_amount = none;
  deposit_deduction_amount = none;
  deposit_status = "";
  deposit_deduction_reason = none;
  version = pos 0;
}

unfoldable pub lease_params : Defs.State → ℤ → Option String → NewLease
lease_params state starting_meter_reading notes = record {
  tenant_id = state.tenant_id;
  room_id = state.room_id;
  property_id = state.property_id;
  rent_amount = state.rent_amount;
  start_date = state.start_date;
  end_date = state.end_date;
  rent_billing_cadence = state.rent_billing_cadence;
  electricity_billing_cadence = state.electricity_billing_cadence;
  starting_meter_reading = starting_meter_reading;
  deposit_amount = state.deposit_amount;
  notes = notes;
}

module _ {F : Type 0} where
  abbrev pub lease_created_event : LeaseRow → Time → Event F
  lease_created_event row occurred_at =
      lease_created row.state.id row.state.room_id row.state.property_id row.state.tenant_id
        row.state.start_date row.state.end_date row.state.rent_billing_cadence
        row.state.electricity_billing_cadence occurred_at

  -- The lease and its bills, written; `replace_lease.go` has the same steps.
  unfoldable pub store_lease : Defs.State → ℤ → Option String → Script F ServiceError LeaseRow
  unfolding lease_params build_bill_seeds
  store_lease state starting_meter_reading notes = do
    created ← catch internal (create_lease (lease_params state starting_meter_reading notes))
    rent_periods ← catch map_period_error (
        lift
          (build_rent_billing_periods state.start_date state.end_date state.rent_billing_cadence))
    electricity_periods ← catch map_period_error (
        lift
          (build_billing_periods state.start_date state.end_date state.electricity_billing_cadence))
    catch internal (create_bills (build_bill_seeds created rent_periods electricity_periods))
    pure created

  -- The function of the transaction.
  unfoldable pub open_lease : Role → List String → Terms → Time → Script F ServiceError LeaseRow
  unfolding store_lease new_state trimmed_optional_string
  open_lease role assigned terms occurred_at = do
    tenant ← catch map_tenant_lookup_error (find_tenant_by_id terms.tenant_id)
    (room, property) ← catch map_room_lookup_error (find_room_by_id_for_update terms.room_id)
    stop_if (not (room.status == "vacant")) room_not_vacant
    stop_if (not (may_access role assigned room.property_id)) forbidden
    state ←
        domain
          (Defs.new (new_state terms room.property_id property.default_electricity_billing_cadence))
    created ← store_lease state terms.starting_meter_reading (trimmed_optional_string terms.notes)
    record_event (lease_created_event created occurred_at)
    pure created

pub record CreateLeaseInput : Type 0 where
  pub actor_role : String
  pub assigned_property_ids : List String
  pub tenant_id : String
  pub room_id : String
  pub rent_amount : ℤ
  pub start_date : Option Time
  pub end_date : Option Time
  pub deposit_amount : ℤ
  pub rent_billing_cadence : String
  pub electricity_billing_cadence : Option String
  pub starting_meter_reading : ℤ
  pub notes : Option String

-- `if value == "" || value == zeroUUID`
unfoldable pub required_id : ServiceError → String → Result ServiceError String
required_id e value =
    let id = trim_space value in if id == "" || id == zero_uuid then err e else ok id

-- `if value.IsZero()`
unfoldable pub required : {A : Type 0} → ServiceError → Option A → Result ServiceError A
required e none = err e
required e (some value) = ok value

-- `Execute`: the checks before the transaction, and its function.
unfoldable pub execute : {F : Type 0} → Time → CreateLeaseInput → Script F ServiceError LeaseRow
execute occurred_at input = do
  tenant_id ← lift (required_id tenant_id_required input.tenant_id)
  room_id ← lift (required_id room_id_required input.room_id)
  start_date ← lift (required start_date_required input.start_date)
  end_date ← lift (required end_date_required input.end_date)
  stop_if (ltb_ℤ input.starting_meter_reading (pos 0)) starting_meter_reading_invalid
  role ← lift (require_writer (role_of input.actor_role))
  open_lease role input.assigned_property_ids
      (record {
        tenant_id = tenant_id;
        room_id = room_id;
        rent_amount = input.rent_amount;
        start_date = start_date;
        end_date = end_date;
        deposit_amount = input.deposit_amount;
        rent_billing_cadence = input.rent_billing_cadence;
        electricity_billing_cadence = input.electricity_billing_cadence;
        starting_meter_reading = input.starting_meter_reading;
        notes = input.notes;
      })
      occurred_at
