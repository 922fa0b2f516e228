-- ===== src/Jobs/Runs/Later.antt =====
-- Executions of jobs after one that has been accepted, of any jobs in any windows.
use stds_backend_go.Prelude.{
  ◌≡◌, refl, ℕ, Bool, true, false, Bool-cases, inl, inr, String, List, [], ◌∷◌, Option, none, some,
  ok, sym, ap, ◌∙◌, subst, if◌then◌else◌,
}
use stds_backend_go.Jobs.Runs.Store.{
  RunId, same_run, JobRun, Table, StartResult, claim, start, set_status, update_status,
  complete_run, fail_run, status_completed, status_failed,
}
use stds_backend_go.Jobs.Runs.Claims.{claim_other, row_other, eq_of_same_run}
use stds_backend_go.Jobs.Runs.Trigger.{
  note_or_default, summary_or_empty, ExecutionSummary, Runner, TriggerResult, Faults, State,
  Outcome, completed, ran, started_run, find_runner, execute,
}
use stds_backend_go.Jobs.Runs.Execute.{
  IsCompleted, IsFinal-completed, IsAccepted, find_final, find_accepts, claim-run_id,
}

-- One call of `Execute` by a service with its jobs and its number of retries.
pub record Execution (W E : Type 0) : Type 0 where
  pub runners : String → Option (Runner W E)
  pub max_retries : ℕ
  pub faults : Faults E
  pub id : RunId
  pub request_id : String

set_status_other :
    (id other : RunId) (status message : String) (row : Option JobRun) (t : Table)
    → same_run id other ≡ false
    → (set_status other status message row t).row id ≡ t.row id
unfolding set_status
set_status_other id other status message none t h = refl
set_status_other id other status message (some run) t h = row_other id other _ t h

update_status_other :
    {E : Type 0} (fault : Option E) (id other : RunId) (status message : String) (t : Table)
    → same_run id other ≡ false
    → (update_status fault other status message t).0.row id ≡ t.row id
unfolding update_status
update_status_other (some e) id other status message t h = refl
update_status_other none id other status message t h =
    set_status_other id other status message (t.row other) t h

module _ {W E : Type 0} where
  completed-table :
      (started : StartResult) (window_key : String) (summary : ExecutionSummary) (message : String)
      (world : W) (b : Table × Option E)
      → (completed started window_key summary message world b).0.table ≡ b.0
  unfolding completed
  completed-table started window_key summary message world (t, some e) = refl
  completed-table started window_key summary message world (t, none) = refl

module _ {W E : Type 0} (skip_message : String → String) (fail_message : E → String)
    (id : RunId) where
  ran_other :
      (faults : Faults E) (started : StartResult) (window_key : String) (t : Table) (world : W)
      (summary : ExecutionSummary) (error : Option E)
      → same_run id started.run_id ≡ false
      → (ran skip_message fail_message faults started window_key t world summary error).0.table.row
          id
        ≡ t.row id
  unfolding ran fail_run complete_run
  ran_other faults started window_key t world summary (some e) h =
      update_status_other faults.at_fail id started.run_id status_failed (fail_message e) t h
  ran_other faults started window_key t world summary none h =
      ap (λ (x : Table). x.row id)
        (completed-table started window_key summary (note_or_default summary.note) world _)
      ∙ update_status_other faults.at_complete id started.run_id status_completed
          (note_or_default summary.note) t h

  if_row :
      (b : Bool) (x y : Outcome W E) {row : Option JobRun}
      → x.0.table.row id ≡ row
      → y.0.table.row id ≡ row
      → (if b then x else y).0.table.row id ≡ row
  if_row true x y hx hy = hx
  if_row false x y hx hy = hy

  claimed_other :
      (faults : Faults E) (runner : Runner W E) (window_key : String) (world : W)
      (b : Table × StartResult)
      → same_run id b.1.run_id ≡ false
      → (started_run skip_message fail_message faults runner window_key world
            (b.0, ok b.1)).0.table.row
          id
        ≡ b.0.row id
  unfolding started_run
  claimed_other faults runner window_key world (t, started) h =
      let job = runner window_key world in
      if_row started.acquired _ _
        (ran_other faults started window_key t job.world (summary_or_empty job.summary) job.error h)
        refl

  start_other :
      (faults : Faults E) (fault : Option E) (runner : Runner W E) (max_retries : ℕ) (other : RunId)
      (request_id : String) (s : State W)
      → same_run id other ≡ false
      → (started_run skip_message fail_message faults runner other.window_key s.world
            (start fault other request_id max_retries s.table)).0.table.row
          id
        ≡ s.table.row id
  unfolding start
  start_other faults (some e) runner max_retries other request_id s h = unfold started_run in refl
  start_other faults none runner max_retries other request_id s h =
      let row = s.table.row other in
      claimed_other faults runner other.window_key s.world
        (claim max_retries other request_id row s.table)
        (subst (λ x. same_run id x ≡ false)
          (sym (claim-run_id max_retries other request_id row s.table)) h)
      ∙ claim_other max_retries id other request_id row s.table h

  -- An execution of another job, or in another window, leaves the row as it is.
  find_other :
      (max_retries : ℕ) (faults : Faults E) (other : RunId) (request_id : String) (s : State W)
      (o : Option (Runner W E))
      → same_run id other ≡ false
      → (find_runner skip_message fail_message max_retries faults other request_id s o).0.table.row
          id
        ≡ s.table.row id
  unfolding find_runner
  find_other max_retries faults other request_id s none h = refl
  find_other max_retries faults other request_id s (some runner) h =
      start_other faults faults.at_start runner max_retries other request_id s h

module _ {W E : Type 0} (skip_message : String → String) (fail_message : E → String) where
  -- What an execution leaves.
  unfoldable pub run : Execution W E → State W → State W
  run x s =
      (execute skip_message fail_message x.runners x.max_retries x.faults x.id x.request_id s).0

  -- What executions leave, one after the other.
  unfoldable pub run_all : List (Execution W E) → State W → State W
  run_all [] s = s
  run_all (x ∷ xs) s = run_all xs (run x s)

  run-IsCompleted :
      (id : RunId) (x : Execution W E) (s : State W)
      → IsCompleted id s.table
      → IsCompleted id (run x s).table
  unfolding run execute
  run-IsCompleted id x s c = elim (Bool-cases (same_run id x.id)) [
    | inl same ↦
        let at : IsCompleted x.id s.table =
          subst (λ o. IsCompleted o s.table) (eq_of_same_run id x.id same) c in
        subst (λ (v : State W). IsCompleted id v.table)
          (sym (
            find_final skip_message fail_message x.max_retries x.faults x.id x.request_id s
              (x.runners x.id.job_key) (IsFinal-completed x.max_retries x.id s.table at)))
          c
    | inr differs ↦ record {
      run = c.run;
      row =
          find_other skip_message fail_message id x.max_retries x.faults x.id x.request_id s
            (x.runners x.id.job_key) differs
          ∙ c.row;
      status = c.status;
    }
  ]

  run_all-IsCompleted :
      (id : RunId) (xs : List (Execution W E)) (s : State W)
      → IsCompleted id s.table
      → IsCompleted id (run_all xs s).table
  unfolding run_all
  run_all-IsCompleted id [] s c = c
  run_all-IsCompleted id (x ∷ xs) s c =
      run_all-IsCompleted id xs (run x s) (run-IsCompleted id x s c)

  -- Once an execution of a job in a window has been accepted, then, whatever executions of any jobs in
  -- any windows follow, another execution of that job in that window changes nothing: neither does the
  -- job run nor does a row of the table change, whatever fails and whatever number of retries it has.
  pub accepted_runs_once :
      (first : Execution W E) (between : List (Execution W E)) (later : Execution W E) (s : State W)
      {r : TriggerResult}
      → (execute skip_message fail_message first.runners first.max_retries first.faults first.id
          first.request_id s).1
        ≡ ok r
      → r.status ≡ "accepted"
      → later.id ≡ first.id
      → run later (run_all between (run first s)) ≡ run_all between (run first s)
  unfolding run execute IsAccepted
  accepted_runs_once first between later s {r} h accepted same =
      let done : IsCompleted first.id (run first s).table =
        find_accepts skip_message fail_message first.max_retries first.faults first.id
          first.request_id s (first.runners first.id.job_key) (r, h, accepted) in
      let after = run_all between (run first s) in
      let still : IsCompleted later.id after.table =
        subst (λ o. IsCompleted o after.table) (sym same)
          (run_all-IsCompleted first.id between (run first s) done) in
      find_final skip_message fail_message later.max_retries later.faults later.id later.request_id
        after (later.runners later.id.job_key)
        (IsFinal-completed later.max_retries later.id after.table still)
