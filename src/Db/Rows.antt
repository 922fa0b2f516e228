-- ===== src/Db/Rows.antt =====
-- The rows that the statements of internal/platform/database/billing/repository.go and
-- internal/platform/database/leases/repository.go read and write. A row that has been deleted keeps
-- its place and its `deleted_at` is set. Labels that a SELECT joins for display are left out. The type
-- of electricity prices is a parameter.
use stds_backend_go.Prelude.{ℕ, Bool, String, List, Option}
use stds_backend_go.Prelude.Int.{ℤ}
use stds_backend_go.GoTime.{Date, Time}
use stds_backend_go.Lease
use stds_backend_go.Bill

-- The columns that the aggregate knows, and the others.
pub record LeaseRow : Type 0 where
  pub state : Lease.Defs.State
  pub actual_move_out_date : Option Time
  pub starting_meter_reading : Option ℤ
  pub notes : Option String
  pub termination_reason : Option String
  pub deleted : Bool

pub record BillRow (F : Type 0) : Type 0 where
  pub state : Bill.Defs.State F
  pub deleted : Bool

pub record RoomRow : Type 0 where
  pub id : String
  pub property_id : String
  pub status : String
  pub deleted : Bool

pub record PropertyRow (F : Type 0) : Type 0 where
  pub id : String
  pub default_electricity_billing_cadence : String
  pub electricity_unit_price : Option F
  pub deleted : Bool

pub record TenantRow : Type 0 where
  pub id : String
  pub status : String
  pub deleted : Bool

pub record AccountRow : Type 0 where
  pub id : String
  pub property_id : String
  pub deleted : Bool

pub record TitleRow : Type 0 where
  pub code : String
  pub is_active : Bool

-- The JSON object `source_ref` of an accounting entry.
pub data SourceRef : Type 0 where
  bill_paid deposit_refunded : String → SourceRef
  deposit_deducted : String → String → SourceRef
  deposit_written_off : String → String → String → SourceRef

pub record EntryRow : Type 0 where
  pub property_account_id : String
  pub category : String
  pub accounting_title_code : String
  pub amount : ℤ
  pub description : Option String
  pub source_ref : SourceRef
  pub year : ℕ
  pub month : ℕ
  pub source_date : Option Date
  pub period_label : Option String
  pub display_note : Option String

pub record ForceTerminationRow : Type 0 where
  pub id : String
  pub lease_id : String
  pub initiated_by : String
  pub reason : String
  pub deposit_handling : String
  pub status : String

pub record ForceTerminationBillRow : Type 0 where
  pub force_termination_id : String
  pub bill_id : String
  pub status : String

pub record Database (F : Type 0) : Type 0 where
  pub leases : List LeaseRow
  pub bills : List (BillRow F)
  pub rooms : List RoomRow
  pub properties : List (PropertyRow F)
  pub tenants : List TenantRow
  pub property_accounts : List AccountRow
  pub accounting_titles : List TitleRow
  pub accounting_entries : List EntryRow
  pub force_terminations : List ForceTerminationRow
  pub force_termination_bills : List ForceTerminationBillRow

-- The domain events that the services record (internal/domain/events).
pub data Event (F : Type 0) : Type 0 where
  bill_paid_event :
      (bill_id property_id lease_id room_id tenant_id bill_type : String)
      → (amount paid_amount : ℤ) → (payment_method : String) → (paid_at : Time) → Event F
  meter_recorded :
      (bill_id property_id room_id lease_id : String)
      → (previous_reading current_reading : ℤ) → (unit_price : F) → (amount : ℤ)
      → (recorded_at : Time) → Event F
  deposit_refunded_event :
      (lease_id property_id : String) → (amount : ℤ) → (occurred_at : Time) → Event F
  deposit_deducted_event :
      (lease_id property_id : String)
      → (amount : ℤ) → (reason : String) → (occurred_at : Time) → Event F
  lease_terminated :
      (lease_id room_id property_id tenant_id : String)
      → (forced is_replacement : Bool) → (occurred_at : Time) → Event F
  lease_created :
      (lease_id room_id property_id tenant_id : String)
      → (start_date end_date : Time) → (rent_billing_cadence electricity_billing_cadence : String)
      → (occurred_at : Time) → Event F
  lease_condition_changed :
      (lease_id property_id room_id tenant_id : String)
      → (new_rent_amount : ℤ) → (effective_date : Date) → (occurred_at : Time) → Event F
  lease_replaced :
      (old_lease_id new_lease_id room_id property_id tenant_id reason : String)
      → (effective_date : Date) → (changed_fields : List String) → (deposit_handling : String)
      → (occurred_at : Time) → Event F
