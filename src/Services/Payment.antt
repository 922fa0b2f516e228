-- ===== src/Services/Payment.antt =====
-- internal/application/billing/record_payment.go, over the repositories that internal/server wires in.
-- `uuid.Parse` is a parameter, `now` is the result of `time.Now`. The details of an error are left out.
mod Accepted
pub mod Books
pub mod Due
use stds_backend_go.Prelude.{
  ℕ, Bool, true, false, not, ◌&&◌, ◌||◌, String, List, [], ◌∷◌, Option, none, some, ◌==◌,
  if◌then◌else◌, Result, ok, err,
}
use stds_backend_go.Prelude.Int.{ℤ, pos}
use stds_backend_go.Prelude.Text.{trim_space}
use stds_backend_go.GoTime.{Time}
use stds_backend_go.Bill.Defs
use stds_backend_go.Bill.Defs.{
  BillError, bill_already_paid, bill_status_not_payable, bill_paid_amount_mismatch,
  meter_reading_less_than_previous, bill_not_electricity_type, bill_status_not_recordable,
  bill_amount_missing, type_rent, type_electricity,
}
use stds_backend_go.Db.Rows.{BillRow, EntryRow, bill_paid, Event, bill_paid_event}
use stds_backend_go.Db.Script.{
  Script, RepositoryError, not_found, concurrent_update, other_error, pure, fail, lift, stop_if,
  catch, record_event, ◌>>=◌, ◌>>◌,
}
use stds_backend_go.Db.Roles.{Role, role_of}
use stds_backend_go.Db.Bills.{get_bill_for_update, update_payment, create_accounting_entry}
use stds_backend_go.Services.Dates.{
  append_text, accounting_source_date, format_accounting_period_label,
}

pub data BillingError : Type 0 where
  forbidden bad_request bill_not_found concurrent_update_conflict : BillingError
  internal_server_error already_paid reading_less_than_previous not_electricity_type : BillingError
  status_not_recordable status_not_payable paid_amount_mismatch : BillingError

unfoldable pub map_repository_error : RepositoryError → BillingError
map_repository_error not_found = bill_not_found
map_repository_error concurrent_update = concurrent_update_conflict
map_repository_error other_error = internal_server_error

-- A missing account is an internal error like any other.
unfoldable pub map_accounting_repository_error : RepositoryError → BillingError
map_accounting_repository_error e = internal_server_error

unfoldable pub map_domain_error : BillError → BillingError
map_domain_error bill_already_paid = already_paid
map_domain_error meter_reading_less_than_previous = reading_less_than_previous
map_domain_error bill_not_electricity_type = not_electricity_type
map_domain_error bill_status_not_recordable = status_not_recordable
map_domain_error bill_status_not_payable = status_not_payable
map_domain_error bill_amount_missing = status_not_payable
map_domain_error bill_paid_amount_mismatch = paid_amount_mismatch

-- `normalizeWriteRole`: the error, or nil.
unfoldable pub check_write_role : Option Role → Result BillingError (Unit {0})
check_write_role none = err forbidden
check_write_role (some role) = ok tt

unfoldable pub normalize_bill_id : (String → Bool) → String → Result BillingError String
normalize_bill_id is_uuid value =
    let trimmed = trim_space value in
    if trimmed == ""
    then err bill_not_found
    else if is_uuid trimmed
    then ok trimmed
    else err bad_request

unfoldable pub is_payment_method : String → Bool
is_payment_method method = method == "cash" || method == "transfer" || method == "other"

unfoldable pub accounting_category_for_bill_type : String → Result BillingError String
accounting_category_for_bill_type bill_type =
    if bill_type == type_rent
    then ok "rent_payment"
    else if bill_type == type_electricity
    then ok "electricity_payment"
    else err internal_server_error

unfoldable pub accounting_title_code_for_bill_type : String → Result BillingError String
accounting_title_code_for_bill_type bill_type =
    if bill_type == type_rent
    then ok "4603"
    else if bill_type == type_electricity
    then ok "4605"
    else err internal_server_error

unfoldable pub format_bill_accounting_display_note : String → String → String
format_bill_accounting_display_note bill_type period_label =
    if bill_type == type_electricity
    then append_text "電費：" period_label
    else append_text "租金：" period_label

-- The receiver after a method that succeeded, or its error.
abbrev pub method_result : {S E : Type 0} → S × Option E → Result E S
method_result (s, none) = ok s
method_result (s, some e) = err e

abbrev pub or_else : {A : Type 0} → Option A → A → A
or_else none default = default
or_else (some a) default = a

pub record RecordPaymentInput : Type 0 where
  pub actor_role : String
  pub bill_id : String
  pub paid_amount : ℤ
  pub payment_method : String
  pub paid_at : Option Time

-- The entry that the payment is booked by; its account is that of the property.
unfoldable pub payment_entry : {F : Type 0} → Defs.State F → String → String → ℤ → Time → EntryRow
payment_entry bill category title_code amount paid_at =
    let label = format_accounting_period_label bill.period_start bill.period_end in
    record {
      property_account_id = "";
      category = category;
      accounting_title_code = title_code;
      amount = amount;
      description = none;
      source_ref = bill_paid bill.id;
      year = paid_at.date.year;
      month = paid_at.date.month;
      source_date = some (accounting_source_date paid_at);
      period_label = some label;
      display_note = some (format_bill_accounting_display_note bill.type label);
    }

module _ {F : Type 0} where
  abbrev pub billing_domain : {S : Type 0} → S × Option BillError → Script F BillingError S
  billing_domain r = catch map_domain_error (lift (method_result r))

  -- What the transaction does after the bill is updated.
  unfoldable pub book_payment :
      BillRow F → Option ℤ → ℤ → String → Time → Script F BillingError (BillRow F)
  unfolding payment_entry
  book_payment updated amount paid_amount method paid_at = do
    category ← lift (accounting_category_for_bill_type updated.state.type)
    title_code ← lift (accounting_title_code_for_bill_type updated.state.type)
    catch map_accounting_repository_error (
        create_accounting_entry updated.state.property_id
          (payment_entry updated.state category title_code paid_amount paid_at))
    record_event (
        bill_paid_event updated.state.id updated.state.property_id updated.state.lease_id
          updated.state.room_id updated.state.tenant_id updated.state.type (or_else amount (pos 0))
          paid_amount method paid_at)
    pure updated

  -- What it does with the aggregate after the call: the pointers that are dereferenced are set.
  unfoldable pub store_payment :
      String → ℤ → Defs.State F → Time → Script F BillingError (BillRow F)
  unfolding book_payment update_payment
  store_payment bill_id version state paid_at = do
    catch map_repository_error (
        update_payment bill_id version (or_else state.payment_method "")
          (or_else state.paid_amount (pos 0)) (or_else state.paid_at paid_at))
    updated ← catch map_repository_error (get_bill_for_update bill_id)
    book_payment updated state.amount (or_else state.paid_amount (pos 0))
        (or_else state.payment_method "") (or_else state.paid_at paid_at)

  -- The function of the transaction.
  unfoldable pub pay_bill : String → ℤ → String → Time → Script F BillingError (BillRow F)
  unfolding store_payment
  pay_bill bill_id paid_amount method paid_at = do
    current ← catch map_repository_error (get_bill_for_update bill_id)
    state ←
        billing_domain
          (Defs.record_payment paid_amount method paid_at (Defs.rehydrate current.state))
    store_payment bill_id current.state.version state paid_at

  -- `Execute`: the checks before the transaction, and the function of the transaction.
  unfoldable pub record_payment :
      (String → Bool) → Time → RecordPaymentInput → Script F BillingError (BillRow F)
  record_payment is_uuid now input = do
    let method = trim_space input.payment_method
    lift (check_write_role (role_of input.actor_role))
    bill_id ← lift (normalize_bill_id is_uuid input.bill_id)
    stop_if (not (is_payment_method method)) bad_request
    pay_bill bill_id input.paid_amount method (or_else input.paid_at now)
