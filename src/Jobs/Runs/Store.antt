-- ===== src/Jobs/Runs/Store.antt =====
-- internal/platform/database/jobruns/repository.go: the table scheduler_job_runs, which has one row
-- at most for a job and a window. A row's id is its job and window. A statement that fails does so
-- with the error `fault`, and the transaction of `Start` then leaves the table as it was.
use stds_backend_go.Prelude.{
  ℕ, suc, Bool, true, false, ◌&&◌, String, Option, none, some, ltb, ◌==◌, if◌then◌else◌, Result, ok,
  err,
}

abbrev pub status_started : String
status_started = "started"

abbrev pub status_completed : String
status_completed = "completed"

abbrev pub status_failed : String
status_failed = "failed"

abbrev pub status_skipped : String
status_skipped = "skipped"

pub record RunId : Type 0 where
  pub job_key : String
  pub window_key : String

abbrev pub same_run : RunId → RunId → Bool
same_run a b = a.job_key == b.job_key && a.window_key == b.window_key

-- The times of a row are left out: nothing reads them back.
pub record JobRun : Type 0 where
  pub status : String
  pub message : Option String
  pub request_id : Option String
  pub retry_count : ℕ

pub record Table : Type 0 where
  pub row : RunId → Option JobRun

abbrev pub empty_table : Table
empty_table = record { row = λ id. none }

abbrev pub write_row : RunId → JobRun → Table → Table
write_row id run t = record { row = λ other. if same_run other id then some run else t.row other }

pub record StartResult : Type 0 where
  pub run_id : RunId
  pub status : String
  pub acquired : Bool
  pub message : String
  pub retry_count : ℕ

unfoldable pub nullable_string : String → Option String
nullable_string value = if value == "" then none else some value

-- `COALESCE(x, y)`.
abbrev pub coalesce {ℓ} : {A : Type ℓ} → Option A → A → A
coalesce none y = y
coalesce (some x) y = x

-- `COALESCE($2, request_id)`.
abbrev pub keep_request : Option String → Option String → Option String
keep_request none old = old
keep_request (some new) old = some new

abbrev pub inserted : String → JobRun
inserted request_id = record {
  status = status_started;
  message = none;
  request_id = nullable_string request_id;
  retry_count = 0;
}

abbrev pub retried : String → JobRun → JobRun
retried request_id run = record {
  status = status_started;
  message = none;
  request_id = keep_request (nullable_string request_id) run.request_id;
  retry_count = suc run.retry_count;
}

abbrev pub start_result : RunId → Bool → JobRun → StartResult
start_result id acquired run = record {
  run_id = id;
  status = run.status;
  acquired = acquired;
  message = coalesce run.message "";
  retry_count = run.retry_count;
}

unfoldable pub can_retry : ℕ → JobRun → Bool
can_retry max_retries run = run.status == status_failed && ltb run.retry_count max_retries

-- What `Start` does with the row that it finds or does not find.
unfoldable pub claim : ℕ → RunId → String → Option JobRun → Table → Table × StartResult
claim max_retries id request_id none t =
    (write_row id (inserted request_id) t, start_result id true (inserted request_id))
claim max_retries id request_id (some run) t =
    if can_retry max_retries run
    then (write_row id (retried request_id run) t, start_result id true (retried request_id run))
    else (t, start_result id false run)

-- `ok` and the result around it, or the fault.
unfoldable pub start :
    {E : Type 0} → Option E → RunId → String → ℕ → Table → Table × Result E StartResult
start (some fault) id request_id max_retries t = (t, err fault)
start none id request_id max_retries t =
    let (after, result) = claim max_retries id request_id (t.row id) t in (after, ok result)

unfoldable pub set_status : RunId → String → String → Option JobRun → Table → Table
set_status id status message none t = t
set_status id status message (some run) t =
    write_row id (record run { status = status; message = nullable_string message }) t

unfoldable pub update_status :
    {E : Type 0} → Option E → RunId → String → String → Table → Table × Option E
update_status (some fault) id status message t = (t, some fault)
update_status none id status message t = (set_status id status message (t.row id) t, none)

unfoldable pub complete_run : {E : Type 0} → Option E → RunId → String → Table → Table × Option E
complete_run fault id message t = update_status fault id status_completed message t

unfoldable pub fail_run : {E : Type 0} → Option E → RunId → String → Table → Table × Option E
fail_run fault id message t = update_status fault id status_failed message t

unfoldable pub skip_run : {E : Type 0} → Option E → RunId → String → Table → Table × Option E
skip_run fault id message t = update_status fault id status_skipped message t
