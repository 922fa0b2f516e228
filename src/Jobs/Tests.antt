-- ===== src/Jobs/Tests.antt =====
-- Jobs at concrete values.
use stds_backend_go.Prelude.{
  ◌≡◌, refl, ◌⊎◌, ℕ, suc, ◌+◌, ◌≤◌, eqb, String, List, [], ◌∷◌, Option, none, some, if◌then◌else◌,
  ok,
}
use stds_backend_go.Jobs.Runs.Store.{
  RunId, empty_table, claim, start, set_status, update_status, complete_run,
}
use stds_backend_go.Jobs.Runs.Claims
use stds_backend_go.Jobs.Runs.Claims.{Step, claims, claims_bounded}
use stds_backend_go.Jobs.Runs.Trigger.{
  Runner, TriggerResult, Faults, State, empty_summary, execute, find_runner, started_run, ran,
  completed,
}
use stds_backend_go.Jobs.Runs.Later.{Execution, run, run_all, accepted_runs_once}
use stds_backend_go.Jobs.Batch.Defs.{
  Tally, processed, skipped, NotificationRecipient, JobError, ForceTerminationCandidate,
}
use stds_backend_go.Prelude.{Method}
use stds_backend_go.GoTime.{Time, date}
use stds_backend_go.Prelude.Int.{pos}
use stds_backend_go.Db.Rows.{Database}
use stds_backend_go.Db.Leases.{new_bill_row}
use stds_backend_go.Db.Forced.{new_force_termination}
use stds_backend_go.Tx.Runner.{World, Sql, within_transaction}
use stds_backend_go.Tx.Atomic.{IsTransactional, IsUndone}
use stds_backend_go.Jobs.Batch.Statements.{Failures, compensation}
use stds_backend_go.Jobs.Batch.Compensation.{IsCompensated, compensate_all_or_nothing}

abbrev window : RunId
window = record { job_key = "overdue_bills_scan"; window_key = "2024-03-01" }

abbrev steps : List Step
steps =
    Claims.start none window "q1"
    ∷ Claims.start none window "q2"
    ∷ Claims.fail none window "down"
    ∷ Claims.start none window "q3"
    ∷ []

claims_bounded_example : claims 1 window steps empty_table ≤ 2
claims_bounded_example = claims_bounded 1 window steps

abbrev runner : Runner ℕ String
runner window_key w = record { world = suc w; summary = none; error = none }

abbrev runners : String → Option (Runner ℕ String)
runners key = some runner

abbrev no_faults : Faults String
no_faults = record { at_start = none; at_complete = none; at_fail = none }

abbrev before : State ℕ
before = record { table = empty_table; world = 0 }

abbrev accepted : TriggerResult
accepted = record {
  job_key = "overdue_bills_scan";
  status = "accepted";
  window_key = "2024-03-01";
  message = "job completed";
  retry_count = 0;
  summary = empty_summary;
}

runs : (execute (λ s. s) (λ e. e) runners 1 no_faults window "q1" before).1 ≡ ok accepted
unfolding execute find_runner started_run ran completed start claim complete_run update_status
    set_status
runs = refl

abbrev execution : String → RunId → Execution ℕ String
execution request_id id = record {
  runners = runners;
  max_retries = 1;
  faults = no_faults;
  id = id;
  request_id = request_id;
}

abbrev other_window : RunId
other_window = record { job_key = "overdue_bills_scan"; window_key = "2024-03-02" }

abbrev between : List (Execution ℕ String)
between = execution "q3" other_window ∷ execution "q4" window ∷ []

accepted_runs_once_example :
    run
      (λ s. s)
      (λ e. e)
      (execution "q2" window)
      (run_all (λ s. s) (λ e. e) between (run (λ s. s) (λ e. e) (execution "q1" window) before))
    ≡ run_all (λ s. s) (λ e. e) between (run (λ s. s) (λ e. e) (execution "q1" window) before)
accepted_runs_once_example =
    accepted_runs_once (λ s. s) (λ e. e) (execution "q1" window) between (execution "q2" window)
      before runs refl refl

abbrev round : ℕ → ℕ → ℕ × Tally
round c w = (w + c, if eqb c 0 then skipped else processed)

abbrev recipients : List NotificationRecipient
recipients =
    record { email = " a@x.io"; name = "A" }
    ∷ record { email = ""; name = "B" }
    ∷ record { email = "a@x.io "; name = "C" }
    ∷ []

abbrev noon : Time
noon = record { date = date 2024 3 1; clock = 43200000000000 }

-- A forced termination that was interrupted, with one bill.
abbrev interrupted : Database ℕ
interrupted = record {
  leases = [];
  bills =
      new_bill_row "b1" noon (record {
        lease_id = "l1";
        tenant_id = "t1";
        room_id = "r1";
        property_id = "p1";
        type = "rent";
        amount = some (pos 100);
        period_start = noon.date;
        period_end = noon.date;
        due_date = noon.date;
        status = "overdue";
      })
      ∷ [];
  rooms = [];
  properties = [];
  tenants = [];
  property_accounts = [];
  accounting_titles = [];
  accounting_entries = [];
  force_terminations = new_force_termination "ft1" "l1" "u1" "arrears" "write_off" ∷ [];
  force_termination_bills =
      record { force_termination_id = "ft1"; bill_id = "b1"; status = "pending" } ∷ [];
}

abbrev sql : Sql (Database ℕ) JobError
sql = record {
  begin = λ db. (db, none);
  commit = λ db now. (now, none);
  rollback = λ db now. (db, none);
}

sql-IsTransactional : IsTransactional sql
sql-IsTransactional = record {
  begins = λ db. refl;
  rolls_back = λ db now. refl;
  commits = λ db now h. refl;
  discards = λ db now h. absurd (h refl);
}

abbrev publisher : ℕ → Method (World (Database ℕ) ℕ) JobError
publisher event w = (w, none)

abbrev no_failures : Failures
no_failures = record {
  at_candidates = none;
  at_list = none;
  at_write_off = none;
  at_mark = none;
  at_complete = none;
}

abbrev world : World (Database ℕ) ℕ
world = record { db = interrupted; out = 0 }

abbrev candidate : ForceTerminationCandidate
candidate = record { id = "ft1"; reason = "arrears" }

compensate_all_or_nothing_example :
    let fn = compensation {Ev = ℕ} no_failures noon candidate in
    let result = within_transaction sql publisher fn world in
    IsUndone sql publisher fn sql-IsTransactional world result
    ⊎ (IsCompensated candidate noon interrupted result.0.db × (result.1 ≡ none))
compensate_all_or_nothing_example =
    compensate_all_or_nothing sql publisher sql-IsTransactional no_failures noon candidate world
