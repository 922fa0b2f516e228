-- ===== src/Checkout/Tests.antt =====
-- A checkout settlement at concrete values.
use stds_backend_go.Prelude.{◌≡◌, List, none, some, arith}
use stds_backend_go.Prelude.Int.{pos}
use stds_backend_go.GoTime.{date}
use stds_backend_go.Lease.Defs.{State, status_active, deposit_status_held}
use stds_backend_go.Checkout.Defs.{Bill, CheckoutInput, Line, settlement_lines, settlement_totals}
use stds_backend_go.Checkout.Totals.{settlement_totals_exact}

abbrev lease : State
lease = record {
  id = "l1";
  tenant_id = "t1";
  room_id = "r1";
  property_id = "p1";
  rent_amount = pos 9000;
  start_date = record { date = date 2024 1 31; clock = 0 };
  end_date = record { date = date 2025 1 30; clock = 0 };
  rent_billing_cadence = "monthly";
  electricity_billing_cadence = "monthly";
  status = status_active;
  deposit_amount = pos 18000;
  deposit_refund_amount = none;
  deposit_deduction_amount = none;
  deposit_status = deposit_status_held;
  deposit_deduction_reason = none;
  version = pos 1;
}

abbrev bill : Bill
bill = record {
  id = "b1";
  type = "rent";
  status = "paid";
  period_start = record { date = date 2024 12 31; clock = 0 };
  period_end = record { date = date 2025 1 30; clock = 0 };
  version = pos 1;
}

abbrev input : CheckoutInput
input = record {
  checkout_date = record { date = date 2025 1 30; clock = 0 };
  final_meter_reading = none;
  cleaning_fee = pos 800;
  key_card_loss_fee = pos 0;
  other_fee = pos 200;
  other_fee_reason = some "wall";
  manual_rent_refund_amount = pos 0;
  manual_rent_refund_reason = none;
}

abbrev lines : List Line
lines = settlement_lines lease input none

settlement_totals_exact_example :
    settlement_totals (
      settlement_lines
        (record lease { deposit_amount = pos 18000 })
        (record input {
          cleaning_fee = pos 800;
          key_card_loss_fee = pos 0;
          other_fee = pos 200;
          manual_rent_refund_amount = pos 300;
        })
        (some (pos 450)))
    ≡ (pos 18300, pos 1450)
settlement_totals_exact_example =
    settlement_totals_exact lease input 18000 300 800 0 200 450 (omega arith) (omega arith)
