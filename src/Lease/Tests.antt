-- ===== src/Lease/Tests.antt =====
-- A lease, its deposit and its end, at concrete values.
use stds_backend_go.Prelude.{
  ◌≡◌, refl, inl, ◌≢◌, ℕ, ◌+◌, ◌<◌, String, List, [], ◌∷◌, Option, none, some, ok, arith, sym, ◌∙◌,
  true, false,
}
use stds_backend_go.Prelude.Int.{ℤ, pos, InInt, half_range}
use stds_backend_go.Prelude.Text.{trim_space}
use stds_backend_go.GoTime.{date, before, after}
use stds_backend_go.Lease.Defs
use stds_backend_go.Lease.Defs.{
  State, check_state, normalize_state, rehydrate, status_active, status_terminated,
  deposit_status_held, deposit_status_settled, deposit_status_written_off, deposit_not_held,
  force_termination_deposit_write_off,
}
use stds_backend_go.Lease.Deposit.{IsSettled, settle_deposit-IsSettled}
use stds_backend_go.Lease.Commands.{
  Command, change_rent, settle_deposit, terminate, run, rehydrate-run,
}

abbrev lease : State
lease = record {
  id = "l1";
  tenant_id = "t1";
  room_id = "r1";
  property_id = "p1";
  rent_amount = pos 9000;
  start_date = record { date = date 2024 1 31; clock = 0 };
  end_date = record { date = date 2025 1 30; clock = 0 };
  rent_billing_cadence = "monthly";
  electricity_billing_cadence = "bimonthly";
  status = status_active;
  deposit_amount = pos 18000;
  deposit_refund_amount = none;
  deposit_deduction_amount = none;
  deposit_status = deposit_status_held;
  deposit_deduction_reason = none;
  version = pos 1;
}

-- The lease as a client writes it.
abbrev draft : State
draft = record lease {
  tenant_id = " t1";
  rent_billing_cadence = "";
  status = "";
  deposit_status = "";
}

abbrev commands : List Command
commands = change_rent (pos 9500) ∷ terminate ∷ settle_deposit (pos 18000) (pos 0) none ∷ []

abbrev ended : State
ended = record lease { status = status_terminated }

abbrev settled : State
settled = record lease {
  deposit_status = deposit_status_settled;
  deposit_refund_amount = some (pos 18000);
}

created : normalize_state draft true ≡ ok lease
unfolding normalize_state check_state trim_space before after Defs.is_valid_rent_cadence
    Defs.is_valid_electricity_cadence
created = refl

settles : (Defs.settle_deposit (pos 17000) (pos 1000) (some "wall") lease).1 ≡ none
unfolding Defs.settle_deposit trim_space stds_backend_go.Prelude.Int.add_int
    stds_backend_go.Prelude.Int.wrap stds_backend_go.Prelude.Int.◌+ℤ◌
settles = refl

rehydrate-run_example : rehydrate (run commands lease) ≡ ok (run commands lease)
rehydrate-run_example = rehydrate-run commands draft true created

settle_deposit-IsSettled_example :
    (lease.deposit_status ≡ deposit_status_held)
    × IsSettled lease.deposit_amount
        (pos 17000)
        (pos 1000)
        (Defs.settle_deposit (pos 17000) (pos 1000) (some "wall") lease).0
settle_deposit-IsSettled_example =
    settle_deposit-IsSettled (pos 17000) (pos 1000) (some "wall") lease 18000 (omega arith)
      (omega arith) refl settles

wall_given : ◌≢◌ {A = ℕ} 1000 0 → trim_space "wall" ≢ ""
unfolding trim_space
wall_given _ e = cc e
