-- ===== src/Jobs/Batch/Statements.antt =====
-- The statements of internal/platform/database/leases/repository.go that the compensation of a forced
-- termination sends, behind the adapter of internal/server/jobs_adapters.go. A statement that fails
-- does so with an error that is given, and leaves the database as it was.
use stds_backend_go.Prelude.{
  ℕ, suc, Bool, ◌&&◌, String, List, [], ◌∷◌, Option, none, some, ◌==◌, if◌then◌else◌, Result, ok,
  err,
}
use stds_backend_go.GoTime.{Time}
use stds_backend_go.Db.Table.{update_where}
use stds_backend_go.Db.Rows.{Database, ForceTerminationRow, ForceTerminationBillRow}
use stds_backend_go.Db.Leases.{is_written_off_by, write_off_columns}
use stds_backend_go.Db.Forced.{
  is_force_termination, is_done_by, status_in_progress, status_completed, status_pending,
  status_done,
}
use stds_backend_go.Jobs.Batch.Defs.{
  JobError, Command, ForceTerminationJobRepository, ForceTerminationCandidate,
}
use stds_backend_go.Jobs.Batch.Runners.{compensate}
use stds_backend_go.Tx.Runner.{FnResult}

-- The errors of the statements, where they fail.
pub record Failures : Type 0 where
  pub at_candidates : Option JobError
  pub at_list : Option JobError
  pub at_write_off : Option JobError
  pub at_mark : Option JobError
  pub at_complete : Option JobError

abbrev pub unless : {A : Type 0} → Option JobError → A → Result JobError A
unless none a = ok a
unless (some e) a = err e

-- A statement that changes the database.
abbrev pub changed : {W : Type 0} → Option JobError → W → W → W × Option JobError
changed none before after = (after, none)
changed (some e) before after = (before, some e)

-- How many rows an update affects.
unfoldable pub count_where {ℓ} : {R : Type ℓ} → (R → Bool) → List R → ℕ
count_where p [] = 0
count_where p (row ∷ rows) = let rest = count_where p rows in if p row then suc rest else rest

-- `ListInProgressForceTerminations`; the order of the rows is that of the table.
unfoldable pub in_progress : List ForceTerminationRow → List ForceTerminationCandidate
in_progress [] = []
in_progress (row ∷ rows) =
    let rest = in_progress rows in
    if row.status == status_in_progress
    then record { id = row.id; reason = row.reason } ∷ rest
    else rest

-- `ListPendingForceTerminationBillIDs`.
unfoldable pub pending_bill_ids : String → List ForceTerminationBillRow → List String
pending_bill_ids id [] = []
pending_bill_ids id (row ∷ rows) =
    let rest = pending_bill_ids id rows in
    if row.force_termination_id == id && row.status == status_pending
    then row.bill_id ∷ rest
    else rest

module _ {F : Type 0} where
  abbrev pub written_off : List String → String → Time → Database F → Database F
  written_off ids reason now db = record db {
    bills = update_where (is_written_off_by ids) (write_off_columns reason now) db.bills;
  }

  -- `WriteOffBillsWithCount`: without a bill, the statement is not sent.
  unfoldable pub write_off_bills_with_count :
      Option JobError → Time → List String → String → Database F → Database F × Result JobError ℕ
  write_off_bills_with_count failure now [] reason db = (db, ok 0)
  write_off_bills_with_count none now (id ∷ ids) reason db = (
    written_off (id ∷ ids) reason now db,
    ok (count_where (is_written_off_by (id ∷ ids)) db.bills),
  )
  write_off_bills_with_count (some e) now (id ∷ ids) reason db = (db, err e)

  abbrev pub bills_done : String → List String → Database F → Database F
  bills_done id ids db = record db {
    force_termination_bills =
        update_where (is_done_by id ids)
          (λ (row : ForceTerminationBillRow). record row { status = status_done })
          db.force_termination_bills;
  }

  -- `MarkForceTerminationBillsDone`: without a bill, the statement is not sent.
  unfoldable pub mark_bills_done : Option JobError → String → List String → Command (Database F)
  mark_bills_done failure id [] db = (db, none)
  mark_bills_done failure id (bill_id ∷ bill_ids) db =
      changed failure db (bills_done id (bill_id ∷ bill_ids) db)

  -- `CompleteForceTermination`.
  abbrev pub termination_completed : String → Database F → Database F
  termination_completed id db = record db {
    force_terminations =
        update_where (is_force_termination id)
          (λ (row : ForceTerminationRow). record row { status = status_completed })
          db.force_terminations;
  }

  -- The repository of the job over the rows of the database, at the time `now`.
  abbrev pub repository : Failures → Time → ForceTerminationJobRepository (Database F)
  repository failures now = record {
    list_in_progress_force_terminations =
        λ db. unless failures.at_candidates (in_progress db.force_terminations);
    list_pending_force_termination_bill_ids =
        λ id db. unless failures.at_list (pending_bill_ids id db.force_termination_bills);
    write_off_bills = write_off_bills_with_count failures.at_write_off now;
    mark_force_termination_bills_done = mark_bills_done failures.at_mark;
    complete_force_termination =
        λ id db. changed failures.at_complete db (termination_completed id db);
  }

  -- The function of the job's transaction, which records no event.
  unfoldable pub compensation :
      {Ev : Type 0}
      → Failures
      → Time
      → ForceTerminationCandidate
      → Database F
      → FnResult (Database F) Ev JobError
  compensation failures now c db =
      let (after, error) = compensate (repository failures now) c db in
      record { db = after; events = []; error = error }
