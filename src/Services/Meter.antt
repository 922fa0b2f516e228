-- ===== src/Services/Meter.antt =====
-- internal/application/billing/record_meter.go. The prices are of the parameter for float64, and
-- `now` is the result of `time.Now`.
pub mod Reads
use stds_backend_go.Prelude.{String, Bool, List, Option, none, some, Result, ok, err}
use stds_backend_go.Prelude.Int.{ℤ, pos}
use stds_backend_go.Prelude.Floats.{Floats}
use stds_backend_go.GoTime.{Time}
use stds_backend_go.Bill.Defs
use stds_backend_go.Db.Rows.{BillRow, Event, meter_recorded}
use stds_backend_go.Db.Script.{
  Script, RepositoryError, not_found, concurrent_update, other_error, pure, lift, catch,
  record_event, ◌>>=◌, ◌>>◌,
}
use stds_backend_go.Db.Roles.{role_of}
use stds_backend_go.Db.Bills.{
  get_bill_for_update, update_meter, find_previous_meter_reading,
  find_property_electricity_unit_price,
}
use stds_backend_go.Services.Payment.{
  BillingError, internal_server_error, concurrent_update_conflict, map_repository_error,
  map_domain_error, check_write_role, normalize_bill_id, or_else, billing_domain,
}

pub record RecordMeterInput : Type 0 where
  pub actor_role : String
  pub bill_id : String
  pub current_reading : ℤ
  pub recorded_at : Option Time

-- The adapter's error for a property that is not there, mapped by `mapRepositoryError`.
unfoldable pub map_price_error : RepositoryError → BillingError
map_price_error not_found = internal_server_error
map_price_error concurrent_update = concurrent_update_conflict
map_price_error other_error = internal_server_error

-- `if unitPrice == nil { return apperr.ErrInternalServerError }`
unfoldable pub price_or_error : {A : Type 0} → Option A → Result BillingError A
price_or_error none = err internal_server_error
price_or_error (some price) = ok price

module _ (f : Floats) where
  -- What the transaction does with the aggregate after the call.
  unfoldable pub store_meter :
      String
      → ℤ
      → ℤ
      → ℤ
      → f.Float64
      → Time
      → Option ℤ
      → Script f.Float64 BillingError (BillRow f.Float64)
  unfolding update_meter
  store_meter bill_id version previous current price recorded_at amount = do
    catch map_repository_error
        (update_meter bill_id version previous current price (or_else amount (pos 0)) recorded_at)
    updated ← catch map_repository_error (get_bill_for_update bill_id)
    record_event (
        meter_recorded updated.state.id updated.state.property_id updated.state.room_id
          updated.state.lease_id previous current price (or_else amount (pos 0)) recorded_at)
    pure updated

  -- What it does with the bill, the previous reading and the price.
  unfoldable pub meter_row :
      String
      → BillRow f.Float64
      → ℤ
      → ℤ
      → f.Float64
      → Time
      → Script f.Float64 BillingError (BillRow f.Float64)
  unfolding store_meter
  meter_row bill_id row previous current price recorded_at = do
    state ←
        billing_domain
          (Defs.record_meter f previous current price recorded_at (Defs.rehydrate row.state))
    store_meter bill_id row.state.version (or_else state.meter_previous_reading (pos 0))
        (or_else state.meter_current_reading (pos 0)) (or_else state.meter_unit_price price)
        (or_else state.meter_recorded_at recorded_at) state.amount

  -- The function of the transaction.
  unfoldable pub meter_bill : String → ℤ → Time → Script f.Float64 BillingError (BillRow f.Float64)
  unfolding meter_row
  meter_bill bill_id current_reading recorded_at = do
    row ← catch map_repository_error (get_bill_for_update bill_id)
    previous ←
        catch map_repository_error
          (find_previous_meter_reading row.state.lease_id row.state.period_start.date)
    unit_price ← catch map_price_error (find_property_electricity_unit_price row.state.property_id)
    price ← lift (price_or_error unit_price)
    meter_row bill_id row previous current_reading price recorded_at

  -- `Execute`.
  unfoldable pub record_meter :
      (String → Bool) → Time → RecordMeterInput → Script f.Float64 BillingError (BillRow f.Float64)
  record_meter is_uuid now input = do
    lift (check_write_role (role_of input.actor_role))
    bill_id ← lift (normalize_bill_id is_uuid input.bill_id)
    meter_bill bill_id input.current_reading (or_else input.recorded_at now)
