-- ===== src/Services/Leases/Errors.antt =====
-- internal/application/lease/errors.go, and what the services of the package share: roles, the checks
-- of identifiers, the aggregate of a row. The details of an error are left out, so that a bad request
-- is one error whatever its field.
use stds_backend_go.Prelude.{
  Bool, ◌||◌, String, Option, none, some, ◌==◌, if◌then◌else◌, Result, ok, err,
}
use stds_backend_go.Prelude.Int.{ℤ, pos}
use stds_backend_go.Prelude.Text.{trim_space}
use stds_backend_go.Lease.Defs
use stds_backend_go.Lease.Defs.{LeaseError}
use stds_backend_go.Db.Rows.{LeaseRow}
use stds_backend_go.Db.Script.{
  Script, RepositoryError, not_found, concurrent_update, other_error, catch, lift,
}
use stds_backend_go.Db.Roles.{Role, admin, organizer, staff}

pub data ServiceError : Type 0 where
  forbidden unauthorized bad_request lease_not_found internal_server_error : ServiceError
  tenant_not_found room_not_found : ServiceError
  tenant_id_required room_id_required start_date_required end_date_required : ServiceError
  starting_meter_reading_invalid room_not_vacant : ServiceError
  invalid_date_range rent_amount_non_positive deposit_negative settlement_negative : ServiceError
  unsupported_update deposit_deduction_reason_required deposit_settlement_mismatch : ServiceError
  deposit_not_held has_unpaid_bills forbidden_force_termination : ServiceError
  force_termination_reason_required force_termination_deposit_required : ServiceError
  update_has_locked_bills lease_not_active replacement_not_at_boundary : ServiceError
  replacement_has_unsettled_bills replacement_scope_mismatch : ServiceError
  replacement_deposit_unsupported force_termination_not_found : ServiceError

unfoldable pub map_domain_error : LeaseError → ServiceError
map_domain_error Defs.invalid_date_range = invalid_date_range
map_domain_error Defs.rent_amount_non_positive = rent_amount_non_positive
map_domain_error Defs.deposit_negative = deposit_negative
map_domain_error Defs.invalid_electricity_billing_cadence = bad_request
map_domain_error Defs.invalid_rent_billing_cadence = bad_request
map_domain_error Defs.deposit_reason_required = deposit_deduction_reason_required
map_domain_error Defs.deposit_settlement_sum = deposit_settlement_mismatch
map_domain_error Defs.settlement_negative = settlement_negative
map_domain_error Defs.deposit_not_held = deposit_not_held
map_domain_error Defs.lease_not_active = lease_not_active
map_domain_error Defs.termination_reason_required = force_termination_reason_required
map_domain_error Defs.invalid_force_termination_deposit_handling = bad_request

unfoldable pub map_lease_lookup_error : RepositoryError → ServiceError
map_lease_lookup_error not_found = lease_not_found
map_lease_lookup_error concurrent_update = internal_server_error
map_lease_lookup_error other_error = internal_server_error

-- `apperr.ErrInternalServerError.WithCause(err)`
unfoldable pub internal : RepositoryError → ServiceError
internal e = internal_server_error

unfoldable pub map_tenant_lookup_error : RepositoryError → ServiceError
map_tenant_lookup_error not_found = tenant_not_found
map_tenant_lookup_error concurrent_update = internal_server_error
map_tenant_lookup_error other_error = internal_server_error

unfoldable pub map_room_lookup_error : RepositoryError → ServiceError
map_room_lookup_error not_found = room_not_found
map_room_lookup_error concurrent_update = internal_server_error
map_room_lookup_error other_error = internal_server_error

abbrev pub zero_uuid : String
zero_uuid = "00000000-0000-0000-0000-000000000000"

unfoldable pub normalize_lease_id : (String → Bool) → String → Result ServiceError String
normalize_lease_id is_uuid value =
    let lease_id = trim_space value in
    if lease_id == "" || lease_id == zero_uuid
    then err lease_not_found
    else if is_uuid lease_id
    then ok lease_id
    else err bad_request

-- `case "admin", "organizer", "staff"`
unfoldable pub require_writer : Option Role → Result ServiceError Role
require_writer none = err forbidden
require_writer (some role) = ok role

-- `case "admin", "organizer"`, with the error of the service.
unfoldable pub require_manager : ServiceError → Option Role → Result ServiceError Role
require_manager e none = err e
require_manager e (some admin) = ok admin
require_manager e (some organizer) = ok organizer
require_manager e (some staff) = err e

-- `intValue`.
abbrev pub int_value : Option ℤ → ℤ
int_value none = pos 0
int_value (some n) = n

-- The state that the settlement and termination services hand to `Rehydrate`: they leave the rent
-- cadence out, which then counts as monthly.
abbrev pub without_rent_cadence : LeaseRow → Defs.State
without_rent_cadence row = record row.state { rent_billing_cadence = "" }

-- The receiver after a method that succeeded, or its error.
abbrev pub method_result : {S E : Type 0} → S × Option E → Result E S
method_result (s, none) = ok s
method_result (s, some e) = err e

module _ {F : Type 0} where
  -- A result of the aggregate, with its error mapped.
  abbrev pub domain : {A : Type 0} → Result LeaseError A → Script F ServiceError A
  domain r = catch map_domain_error (lift r)
