-- ===== src/Bill/Tests.antt =====
-- An electricity bill at concrete values, with whole numbers as prices.
use stds_backend_go.Prelude.{
  ◌≡◌, refl, ◌≢◌, ℕ, ◌*◌, eqb, false, String, List, [], ◌∷◌, Option, none, some, if◌then◌else◌,
}
use stds_backend_go.Prelude.Int.{ℤ, pos, negsuc, eqb_ℤ, ltb_ℤ}
use stds_backend_go.Prelude.Floats.{whole}
use stds_backend_go.GoTime.{Time, date}
use stds_backend_go.Bill.Defs
use stds_backend_go.Bill.Defs.{
  State, type_electricity, status_pending_meter, status_pending_payment, status_paid,
  bill_already_paid, bill_paid_amount_mismatch, meter_amount,
}
use stds_backend_go.Bill.Lifecycle.{
  Command, record_meter, record_payment, apply, run, IsPaidInFull, run-IsPaidInFull,
  meter_then_payment,
}

abbrev noon : Time
noon = record { date = date 2024 3 1; clock = 0 }

abbrev bill : State ℕ
bill = record {
  id = "b1";
  lease_id = "l1";
  tenant_id = "t1";
  room_id = "r1";
  property_id = "p1";
  type = type_electricity;
  amount = none;
  period_start = noon;
  period_end = noon;
  due_date = noon;
  status = status_pending_meter;
  payment_method = none;
  paid_at = none;
  paid_amount = none;
  meter_previous_reading = none;
  meter_current_reading = none;
  meter_unit_price = none;
  meter_recorded_at = none;
  written_off_reason = none;
  overdue_notice_count = pos 0;
  created_at = noon;
  updated_at = noon;
  version = pos 1;
}

abbrev paid : State ℕ
paid = record bill { status = status_paid; amount = some (pos 200); paid_amount = some (pos 200) }

abbrev commands : List (Command ℕ)
commands = record_meter (pos 100) (pos 140) 5 noon ∷ record_payment (pos 200) " cash " noon ∷ []

refused : (apply whole (record_payment (pos 200) "cash" noon) paid).1 ≡ some bill_already_paid
unfolding apply Defs.record_payment
refused = refl

bill-IsPaidInFull : IsPaidInFull whole bill
bill-IsPaidInFull = record { paid_in_full = λ e. cc e }

run-IsPaidInFull_example : IsPaidInFull whole (run whole commands bill)
run-IsPaidInFull_example = run-IsPaidInFull whole commands bill bill-IsPaidInFull

meter_then_payment_example :
    let b = (apply whole (record_meter (pos 100) (pos 140) 5 noon) bill).0 in
    let (c, e) = apply whole (record_payment (pos 200) "cash" noon) b in
    (b.amount ≡ some (pos 200))
    × (e ≡ none)
    × (c.status ≡ status_paid)
    × (c.paid_amount ≡ some (pos 200))
unfolding stds_backend_go.Prelude.Int.sub_int stds_backend_go.Prelude.Int.wrap
    stds_backend_go.Prelude.Int.◌-ℤ◌
meter_then_payment_example =
    meter_then_payment whole (pos 100) (pos 140) (pos 200) 5 noon noon "cash" bill refl refl refl
