-- ===== src/Checkout/Defs.antt =====
-- The calculations of internal/application/lease/checkout_settlement.go. The lease is the state of the
-- lease aggregate, which has the fields that the settlement reads. Of a line the JSON reference to its
-- source is left out, and of a blocker its message, which its code determines.
use stds_backend_go.Prelude.{
  Bool, true, false, not, ◌&&◌, ◌||◌, String, List, [], ◌∷◌, ◌++◌, Option, none, some, ◌==◌,
  if◌then◌else◌,
}
use stds_backend_go.Prelude.Int.{ℤ, pos, ltb_ℤ, add_int, sub_int}
use stds_backend_go.GoTime.{Date, Time, before}
use stds_backend_go.Periods.Defs.{normalize_date}
use stds_backend_go.Lease.Defs.{State, status_active, status_expired, deposit_status_held}

abbrev pub direction_refund : String
direction_refund = "refund"

abbrev pub direction_charge : String
direction_charge = "charge"

pub record Bill : Type 0 where
  pub id : String
  pub type : String
  pub status : String
  pub period_start : Time
  pub period_end : Time
  pub version : ℤ

-- What the calculations read of `CheckoutSettlementInput`.
pub record CheckoutInput : Type 0 where
  pub checkout_date : Time
  pub final_meter_reading : Option ℤ
  pub cleaning_fee : ℤ
  pub key_card_loss_fee : ℤ
  pub other_fee : ℤ
  pub other_fee_reason : Option String
  pub manual_rent_refund_amount : ℤ
  pub manual_rent_refund_reason : Option String

pub record Line : Type 0 where
  pub kind : String
  pub label : String
  pub direction : String
  pub amount : ℤ
  pub description : Option String

pub data Blocker : Type 0 where
  lease_not_active deposit_not_held checkout_before_start rent_refund charge_exceeds_deposit :
      Blocker
  unpaid_bill pending_meter : String → Blocker

-- `if amount > 0 { lines = append(lines, line) }`
abbrev pub if_positive : ℤ → Line → List Line
if_positive amount line = if ltb_ℤ (pos 0) amount then line ∷ [] else []

abbrev pub charge : String → String → ℤ → Option String → Line
charge kind label amount description = record {
  kind = kind;
  label = label;
  direction = direction_charge;
  amount = amount;
  description = description;
}

abbrev pub rent_refund_line : ℤ → Option String → Line
rent_refund_line amount reason = record {
  kind = "rent_refund";
  label = "未到期租金手動退回";
  direction = direction_refund;
  amount = amount;
  description = reason;
}

abbrev pub electricity_lines : Option ℤ → List Line
electricity_lines none = []
electricity_lines (some amount) = charge "electricity_settlement" "退租電費結算" amount none ∷ []

-- The lines of `buildCheckoutSettlement`; `electricity` is the amount of the calculation.
unfoldable pub settlement_lines : State → CheckoutInput → Option ℤ → List Line
settlement_lines lease input electricity =
    record {
      kind = "deposit_refund";
      label = "押金退還";
      direction = direction_refund;
      amount = lease.deposit_amount;
      description = none;
    }
    ∷ (if_positive input.cleaning_fee (charge "cleaning_fee" "清潔費" input.cleaning_fee none)
        ++ (if_positive input.key_card_loss_fee
              (charge "key_card_loss" "門禁卡/鑰匙遺失費" input.key_card_loss_fee none)
            ++ (if_positive input.other_fee
                  (charge "other_fee" "其他費用" input.other_fee input.other_fee_reason)
                ++ (if_positive input.manual_rent_refund_amount (
                      rent_refund_line input.manual_rent_refund_amount
                        input.manual_rent_refund_reason)
                    ++ electricity_lines electricity))))

-- The loop of `checkoutSettlementTotals`.
unfoldable pub totals_from : ℤ → ℤ → List Line → ℤ × ℤ
totals_from total_refund total_charge [] = (total_refund, total_charge)
totals_from total_refund total_charge (line ∷ lines) =
    if line.direction == direction_refund
    then totals_from (add_int total_refund line.amount) total_charge lines
    else if line.direction == direction_charge
    then totals_from total_refund (add_int total_charge line.amount) lines
    else totals_from total_refund total_charge lines

unfoldable pub settlement_totals : List Line → ℤ × ℤ
settlement_totals lines = totals_from (pos 0) (pos 0) lines

unfoldable pub settlement_net : ℤ → ℤ → String × ℤ
settlement_net total_refund total_charge =
    if ltb_ℤ total_charge total_refund
    then ("refund", sub_int total_refund total_charge)
    else if ltb_ℤ total_refund total_charge
    then ("payable", sub_int total_charge total_refund)
    else ("zero", pos 0)

abbrev pub has_value {ℓ} : {A : Type ℓ} → Option A → Bool
has_value none = false
has_value (some a) = true

abbrev pub same_day : Date → Date → Bool
same_day a b = not (before a b) && not (before b a)

-- The loop of `checkoutResolvablePendingMeterBill`, after its test for a reading.
unfoldable pub resolvable_from : CheckoutInput → Option Bill → List Bill → Option Bill
resolvable_from input candidate [] = candidate
resolvable_from input candidate (bill ∷ bills) =
    let next = resolvable_from input candidate bills in
    let chosen = resolvable_from input (some bill) bills in
    if not (bill.status == "pending_meter")
    then next
    else if has_value candidate
    then none
    else if not (bill.type == "electricity")
    then none
    else if not (same_day (normalize_date input.checkout_date) (normalize_date bill.period_end))
    then none
    else chosen

unfoldable pub resolvable_pending_meter_bill : List Bill → CheckoutInput → Option Bill
resolvable_pending_meter_bill bills input =
    if has_value input.final_meter_reading then resolvable_from input none bills else none

abbrev pub has_id : Option Bill → String → Bool
has_id none id = false
has_id (some bill) id = bill.id == id

unfoldable pub pending_meter_bill_resolvable : List Bill → Bill → CheckoutInput → Bool
pending_meter_bill_resolvable bills bill input =
    has_id (resolvable_pending_meter_bill bills input) bill.id

abbrev pub block_if : Bool → Blocker → List Blocker
block_if b blocker = if b then blocker ∷ [] else []

-- The case of one bill in the loop of `checkoutSettlementBlockers`.
unfoldable pub bill_blockers : List Bill → CheckoutInput → Bill → List Blocker
bill_blockers bills input bill =
    if bill.status == "pending_payment" || bill.status == "overdue"
    then unpaid_bill bill.id ∷ []
    else block_if
        (bill.status == "pending_meter" && not (pending_meter_bill_resolvable bills bill input))
        (pending_meter bill.id)

unfoldable pub all_bill_blockers : List Bill → CheckoutInput → List Bill → List Blocker
all_bill_blockers bills input [] = []
all_bill_blockers bills input (bill ∷ rest) =
    bill_blockers bills input bill ++ all_bill_blockers bills input rest

unfoldable pub settlement_blockers : State → List Bill → CheckoutInput → List Line → List Blocker
settlement_blockers lease bills input lines =
    let checkout = normalize_date input.checkout_date in
    let total_charge = (settlement_totals lines).1 in
    block_if (not (lease.status == status_active) && not (lease.status == status_expired))
      lease_not_active
    ++ (block_if (not (lease.deposit_status == deposit_status_held)) deposit_not_held
        ++ (block_if (before checkout (normalize_date lease.start_date)) checkout_before_start
            ++ (block_if
                  (before checkout (normalize_date lease.end_date)
                    && not (has_value input.manual_rent_refund_reason))
                  rent_refund
                ++ (all_bill_blockers bills input bills
                    ++ block_if (ltb_ℤ lease.deposit_amount total_charge) charge_exceeds_deposit))))

-- `refundAmount` and `deductionAmount` of `FinalizeCheckoutSettlementService.Execute`.
unfoldable pub refund_amount : ℤ → ℤ → ℤ
refund_amount deposit_amount total_charge =
    let difference = sub_int deposit_amount total_charge in
    if ltb_ℤ difference (pos 0) then pos 0 else difference

unfoldable pub deduction_amount : ℤ → ℤ → ℤ
deduction_amount deposit_amount total_charge =
    if ltb_ℤ deposit_amount total_charge then deposit_amount else total_charge
