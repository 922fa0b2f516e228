-- ===== src/Bill/Defs.antt =====
-- The bill aggregate. `float64` is a parameter: the program multiplies and rounds prices. Times are
-- carried and never read here.
use stds_backend_go.Prelude.{not, ◌&&◌, String, Option, none, some, ◌==◌, if◌then◌else◌, Method}
use stds_backend_go.Prelude.Int.{ℤ, ltb_ℤ, eqb_ℤ, sub_int}
use stds_backend_go.Prelude.Text.{trim_space}
use stds_backend_go.Prelude.Floats.{Floats}
use stds_backend_go.GoTime.{Time}

abbrev pub type_rent : String
type_rent = "rent"

abbrev pub type_electricity : String
type_electricity = "electricity"

abbrev pub status_pending_meter : String
status_pending_meter = "pending_meter"

abbrev pub status_pending_payment : String
status_pending_payment = "pending_payment"

abbrev pub status_paid : String
status_paid = "paid"

abbrev pub status_overdue : String
status_overdue = "overdue"

abbrev pub status_voided : String
status_voided = "voided"

abbrev pub status_written_off : String
status_written_off = "written_off"

pub record State (F : Type 0) : Type 0 where
  pub id : String
  pub lease_id : String
  pub tenant_id : String
  pub room_id : String
  pub property_id : String
  pub type : String
  pub amount : Option ℤ
  pub period_start : Time
  pub period_end : Time
  pub due_date : Time
  pub status : String
  pub payment_method : Option String
  pub paid_at : Option Time
  pub paid_amount : Option ℤ
  pub meter_previous_reading : Option ℤ
  pub meter_current_reading : Option ℤ
  pub meter_unit_price : Option F
  pub meter_recorded_at : Option Time
  pub written_off_reason : Option String
  pub overdue_notice_count : ℤ
  pub created_at : Time
  pub updated_at : Time
  pub version : ℤ

pub data BillError : Type 0 where
  bill_already_paid bill_status_not_payable bill_paid_amount_mismatch : BillError
  meter_reading_less_than_previous bill_not_electricity_type : BillError
  bill_status_not_recordable bill_amount_missing : BillError

unfoldable pub rehydrate : {F : Type 0} → State F → State F
rehydrate state = record state { type = trim_space state.type; status = trim_space state.status }

-- usage times unit price, rounded.
abbrev pub meter_amount : (f : Floats) → ℤ → ℤ → f.Float64 → ℤ
meter_amount f previous_reading current_reading unit_price =
    let usage = sub_int current_reading previous_reading in
    f.round (f.times (f.of_int usage) unit_price)

unfoldable pub record_meter :
    (f : Floats) → ℤ → ℤ → f.Float64 → Time → Method (State f.Float64) BillError
record_meter f previous_reading current_reading unit_price recorded_at a =
    if not (a.type == type_electricity)
    then (a, some bill_not_electricity_type)
    else if not (a.status == status_pending_meter)
    then (a, some bill_status_not_recordable)
    else if ltb_ℤ current_reading previous_reading
    then (a, some meter_reading_less_than_previous)
    else (
      record a {
        meter_previous_reading = some previous_reading;
        meter_current_reading = some current_reading;
        meter_unit_price = some unit_price;
        meter_recorded_at = some recorded_at;
        amount = some (meter_amount f previous_reading current_reading unit_price);
        status = status_pending_payment;
      },
      none,
    )

-- The last tests of `RecordPayment`, on `a.state.Amount`, and its writes.
unfoldable pub pay : {F : Type 0} → ℤ → String → Time → Option ℤ → Method (State F) BillError
pay paid_amount payment_method paid_at none a = (a, some bill_amount_missing)
pay paid_amount payment_method paid_at (some amount) a =
    if not (eqb_ℤ paid_amount amount) then (a, some bill_paid_amount_mismatch) else (
      record a {
        paid_amount = some paid_amount;
        payment_method = some (trim_space payment_method);
        paid_at = some paid_at;
        status = status_paid;
      },
      none,
    )

unfoldable pub record_payment : {F : Type 0} → ℤ → String → Time → Method (State F) BillError
record_payment paid_amount payment_method paid_at a =
    if a.status == status_paid
    then (a, some bill_already_paid)
    else if not (a.status == status_pending_payment) && not (a.status == status_overdue)
    then (a, some bill_status_not_payable)
    else pay paid_amount payment_method paid_at a.amount a
