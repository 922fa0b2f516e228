-- ===== src/Lease/Defs.antt =====
-- The lease aggregate. An `Aggregate` is its `State`; a method returns the state after the call and
-- the error. Amounts are Go's `int`.
use stds_backend_go.Prelude.{
  Bool, true, false, not, ◌&&◌, ◌||◌, String, Option, none, some, ◌==◌, if◌then◌else◌, Result, ok,
  ◌>>◌, fail_if, Method,
}
use stds_backend_go.Prelude.Int.{ℤ, pos, ltb_ℤ, leb_ℤ, eqb_ℤ, add_int}
use stds_backend_go.Prelude.Text.{trim_space, trim_to_optional, string_value}
use stds_backend_go.GoTime.{Time, after}
use stds_backend_go.Periods.Defs.{
  cadence_monthly, cadence_bimonthly, cadence_quarterly, cadence_semiannual, cadence_annual,
}

abbrev pub status_active : String
status_active = "active"

abbrev pub status_expired : String
status_expired = "expired"

abbrev pub status_terminated : String
status_terminated = "terminated"

abbrev pub status_force_terminated : String
status_force_terminated = "force_terminated"

abbrev pub deposit_status_held : String
deposit_status_held = "held"

abbrev pub deposit_status_settled : String
deposit_status_settled = "settled"

abbrev pub deposit_status_written_off : String
deposit_status_written_off = "written_off"

abbrev pub force_termination_deposit_write_off : String
force_termination_deposit_write_off = "write_off"

abbrev pub force_termination_deposit_keep_held : String
force_termination_deposit_keep_held = "keep_held"

pub record State : Type 0 where
  pub id : String
  pub tenant_id : String
  pub room_id : String
  pub property_id : String
  pub rent_amount : ℤ
  pub start_date : Time
  pub end_date : Time
  pub rent_billing_cadence : String
  pub electricity_billing_cadence : String
  pub status : String
  pub deposit_amount : ℤ
  pub deposit_refund_amount : Option ℤ
  pub deposit_deduction_amount : Option ℤ
  pub deposit_status : String
  pub deposit_deduction_reason : Option String
  pub version : ℤ

pub data LeaseError : Type 0 where
  invalid_date_range rent_amount_non_positive deposit_negative : LeaseError
  invalid_electricity_billing_cadence invalid_rent_billing_cadence : LeaseError
  deposit_reason_required deposit_settlement_sum settlement_negative : LeaseError
  deposit_not_held lease_not_active termination_reason_required : LeaseError
  invalid_force_termination_deposit_handling : LeaseError

unfoldable pub is_terminable_status : String → Bool
is_terminable_status status = status == status_active || status == status_expired

unfoldable pub is_valid_electricity_cadence : String → Bool
is_valid_electricity_cadence cadence = cadence == cadence_monthly || cadence == cadence_bimonthly

unfoldable pub is_valid_rent_cadence : String → Bool
is_valid_rent_cadence cadence =
    cadence == cadence_monthly
    || cadence == cadence_quarterly
    || cadence == cadence_semiannual
    || cadence == cadence_annual

-- `if value == "" { value = default }`
abbrev pub default_to : String → String → String
default_to default value = if value == "" then default else value

-- The assignments at the top of `normalizeState`.
abbrev pub trim_state : State → State
trim_state s = record s {
  tenant_id = trim_space s.tenant_id;
  room_id = trim_space s.room_id;
  property_id = trim_space s.property_id;
  rent_billing_cadence = default_to cadence_monthly (trim_space s.rent_billing_cadence);
  electricity_billing_cadence = trim_space s.electricity_billing_cadence;
}

-- The checks of `normalizeState`, in order.
unfoldable pub check_state : State → Result LeaseError (Unit {0})
check_state s = do
  fail_if (after s.start_date s.end_date) invalid_date_range
  fail_if (leb_ℤ s.rent_amount (pos 0)) rent_amount_non_positive
  fail_if (ltb_ℤ s.deposit_amount (pos 0)) deposit_negative
  fail_if (not (is_valid_rent_cadence s.rent_billing_cadence)) invalid_rent_billing_cadence
  fail_if (not (is_valid_electricity_cadence s.electricity_billing_cadence))
      invalid_electricity_billing_cadence

-- The defaults of a new lease.
abbrev pub fill_defaults : State → State
fill_defaults s = record s {
  status = default_to status_active s.status;
  deposit_status = default_to deposit_status_held s.deposit_status;
}

unfoldable pub normalize_state : State → Bool → Result LeaseError State
normalize_state state creating = do
  let trimmed = trim_state state
  check_state trimmed
  ok (if creating then fill_defaults trimmed else trimmed)

unfoldable pub new : State → Result LeaseError State
new state = normalize_state state true

unfoldable pub rehydrate : State → Result LeaseError State
rehydrate state = normalize_state state false

unfoldable pub change_rent : ℤ → Method State LeaseError
change_rent rent_amount a =
    if not (a.status == status_active)
    then (a, some lease_not_active)
    else if leb_ℤ rent_amount (pos 0)
    then (a, some rent_amount_non_positive)
    else (record a { rent_amount = rent_amount }, none)

unfoldable pub settle_deposit : ℤ → ℤ → Option String → Method State LeaseError
settle_deposit refund_amount deduction_amount deduction_reason a =
    if not (a.deposit_status == deposit_status_held)
    then (a, some deposit_not_held)
    else if ltb_ℤ refund_amount (pos 0) || ltb_ℤ deduction_amount (pos 0)
    then (a, some settlement_negative)
    else if ltb_ℤ (pos 0) deduction_amount && trim_space (string_value deduction_reason) == ""
    then (a, some deposit_reason_required)
    else if not (eqb_ℤ (add_int refund_amount deduction_amount) a.deposit_amount)
    then (a, some deposit_settlement_sum)
    else (
      record a {
        deposit_refund_amount = some refund_amount;
        deposit_deduction_amount = some deduction_amount;
        deposit_deduction_reason =
            if ltb_ℤ (pos 0) deduction_amount
            then trim_to_optional (string_value deduction_reason)
            else none;
        deposit_status = deposit_status_settled;
      },
      none,
    )

unfoldable pub terminate : Method State LeaseError
unfolding is_terminable_status
terminate a =
    if not (is_terminable_status a.status)
    then (a, some lease_not_active)
    else (record a { status = status_terminated }, none)

unfoldable pub force_terminate : String → String → Method State LeaseError
unfolding is_terminable_status
force_terminate reason deposit_handling a =
    let handling = trim_space deposit_handling in
    if not (is_terminable_status a.status)
    then (a, some lease_not_active)
    else if trim_space reason == ""
    then (a, some termination_reason_required)
    else if handling == force_termination_deposit_write_off
    then (
      record a { status = status_force_terminated; deposit_status = deposit_status_written_off },
      none,
    )
    else if handling == force_termination_deposit_keep_held
    then (record a { status = status_force_terminated }, none)
    else (a, some invalid_force_termination_deposit_handling)
