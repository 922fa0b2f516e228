-- ===== src/Jobs/Runs/Trigger.antt =====
-- internal/application/jobs/trigger.go, and the store of jobs.go behind it. The times of a result are
-- left out. The texts that `fmt.Sprintf` makes are parameters.
use stds_backend_go.Prelude.{ℕ, String, Option, none, some, ◌==◌, if◌then◌else◌, Result, ok, err}
use stds_backend_go.Prelude.Int.{ℤ, pos, negsuc}
use stds_backend_go.Jobs.Runs.Store.{RunId, Table, StartResult, start, complete_run, fail_run}

pub record ExecutionSummary : Type 0 where
  pub processed_count : ℕ
  pub skipped_count : ℕ
  pub failed_count : ℕ
  pub note : String

abbrev pub empty_summary : ExecutionSummary
empty_summary = record { processed_count = 0; skipped_count = 0; failed_count = 0; note = "" }

-- A job runs in a world `W` and returns a summary, which may be nil, and an error.
pub record JobResult (W E : Type 0) : Type 0 where
  pub world : W
  pub summary : Option ExecutionSummary
  pub error : Option E

abbrev pub Runner : Type 0 → Type 0 → Type 0
Runner W E = String → W → JobResult W E

pub record TriggerResult : Type 0 where
  pub job_key : String
  pub status : String
  pub window_key : String
  pub message : String
  pub retry_count : ℕ
  pub summary : ExecutionSummary

pub data TriggerError (E : Type 0) : Type 0 where
  runner_not_configured : TriggerError E
  failed : E → TriggerError E

-- `NewTriggerService` takes a negative number of retries for none.
abbrev pub retries_of : ℤ → ℕ
retries_of (pos n) = n
retries_of (negsuc n) = 0

-- The faults of the calls of the store in one execution.
pub record Faults (E : Type 0) : Type 0 where
  pub at_start : Option E
  pub at_complete : Option E
  pub at_fail : Option E

-- The table of job runs, and the rest of the world.
pub record State (W : Type 0) : Type 0 where
  pub table : Table
  pub world : W

abbrev pub Outcome : Type 0 → Type 0 → Type 0
Outcome W E = State W × Result (TriggerError E) TriggerResult

abbrev pub note_or_default : String → String
note_or_default note = if note == "" then "job completed" else note

abbrev pub trigger_result :
    String → StartResult → String → String → ExecutionSummary → TriggerResult
trigger_result window_key started status message summary = record {
  job_key = started.run_id.job_key;
  status = status;
  window_key = window_key;
  message = message;
  retry_count = started.retry_count;
  summary = summary;
}

abbrev pub summary_or_empty : Option ExecutionSummary → ExecutionSummary
summary_or_empty none = empty_summary
summary_or_empty (some summary) = summary

-- After `Complete`.
unfoldable pub completed :
    {W E : Type 0}
    → StartResult
    → String
    → ExecutionSummary
    → String
    → W
    → Table × Option E
    → Outcome W E
completed started window_key summary message world (table, some e) =
    (record { table = table; world = world }, err (failed e))
completed started window_key summary message world (table, none) = (
  record { table = table; world = world },
  ok (trigger_result window_key started "accepted" message summary),
)

module _ {W E : Type 0} (skip_message : String → String) (fail_message : E → String) where
  -- After the job.
  unfoldable pub ran :
      Faults E → StartResult → String → Table → W → ExecutionSummary → Option E → Outcome W E
  ran faults started window_key table world summary (some e) = (
    record {
      table = (fail_run faults.at_fail started.run_id (fail_message e) table).0;
      world = world;
    },
    err (failed e),
  )
  ran faults started window_key table world summary none =
      let message = note_or_default summary.note in
      completed started window_key summary message world
        (complete_run faults.at_complete started.run_id message table)

  -- After `Start`.
  unfoldable pub started_run :
      Faults E → Runner W E → String → W → Table × Result E StartResult → Outcome W E
  started_run faults runner window_key world (table, err e) =
      (record { table = table; world = world }, err (failed e))
  started_run faults runner window_key world (table, ok started) =
      let message = skip_message started.status in
      let job = runner window_key world in
      if started.acquired
      then ran faults started window_key table job.world (summary_or_empty job.summary) job.error
      else (
        record { table = table; world = world },
        ok (
            trigger_result window_key started "skipped" message
              (record empty_summary { note = message })),
      )

  unfoldable pub find_runner :
      ℕ → Faults E → RunId → String → State W → Option (Runner W E) → Outcome W E
  find_runner max_retries faults id request_id s none = (s, err runner_not_configured)
  find_runner max_retries faults id request_id s (some runner) =
      started_run faults runner id.window_key s.world
        (start faults.at_start id request_id max_retries s.table)

  -- `Execute` of a service with a store.
  unfoldable pub execute :
      (String → Option (Runner W E)) → ℕ → Faults E → RunId → String → State W → Outcome W E
  execute runners max_retries faults id request_id s =
      find_runner max_retries faults id request_id s (runners id.job_key)
