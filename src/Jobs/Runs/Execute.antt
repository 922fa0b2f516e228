-- ===== src/Jobs/Runs/Execute.antt =====
-- A window that has been completed is not run again.
use stds_backend_go.Prelude.{
  ◌≡◌, refl, ℕ, Bool, true, false, Bool-cases, inl, inr, String, Option, none, some, arith,
  if◌then◌else◌, ok, eq_iff, ap, ok-injective, sym, subst,
}
use stds_backend_go.Prelude.Text.{not_both, eq_other}
use stds_backend_go.Jobs.Runs.Store.{
  RunId, JobRun, Table, StartResult, inserted, retried, can_retry, claim, start, set_status,
  update_status, complete_run, nullable_string, status_completed, status_failed,
}
use stds_backend_go.Jobs.Runs.Claims.{row_written}
use stds_backend_go.Jobs.Runs.Trigger.{
  note_or_default, trigger_result, summary_or_empty, ExecutionSummary, Runner, TriggerResult,
  Faults, State, Outcome, completed, ran, started_run, find_runner,
}

-- The row of a window that no `Start` claims any more.
pub record IsFinal (max_retries : ℕ) (id : RunId) (t : Table) : Type 0 where
  pub run : JobRun
  pub row : t.row id ≡ some run
  pub final : can_retry max_retries run ≡ false

module _ {W E : Type 0} (skip_message : String → String) (fail_message : E → String)
    (max_retries : ℕ) where
  started_final :
      (faults : Faults E) (id : RunId) (request_id : String) (runner : Runner W E) (s : State W)
      → IsFinal max_retries id s.table
      → (started_run skip_message fail_message faults runner id.window_key s.world
          (start faults.at_start id request_id max_retries s.table)).0
        ≡ s
  started_final faults id request_id runner s f = go faults.at_start
    where
      go :
          (fault : Option E)
          → (started_run skip_message fail_message faults runner id.window_key s.world
              (start fault id request_id max_retries s.table)).0
            ≡ s
      go (some e) = unfold started_run in unfold start in refl
      go none = unfold started_run in unfold start in unfold claim in rw (f.row, f.final) refl

  pub find_final :
      (faults : Faults E) (id : RunId) (request_id : String) (s : State W) (o : Option (Runner W E))
      → IsFinal max_retries id s.table
      → (find_runner skip_message fail_message max_retries faults id request_id s o).0 ≡ s
  unfolding find_runner
  find_final faults id request_id s none f = refl
  find_final faults id request_id s (some runner) f = started_final faults id request_id runner s f

-- The window's row says that its job has been completed.
pub record IsCompleted (id : RunId) (t : Table) : Type 0 where
  pub run : JobRun
  pub row : t.row id ≡ some run
  pub status : run.status ≡ status_completed

pub IsCompleted-same :
    {id other : RunId} {t : Table} → id ≡ other → IsCompleted id t → IsCompleted other t
IsCompleted-same {t = t} e c = subst (λ x. IsCompleted x t) e c

pub IsFinal-completed :
    (max_retries : ℕ) (id : RunId) (t : Table) → IsCompleted id t → IsFinal max_retries id t
unfolding can_retry
IsFinal-completed max_retries id t c = record {
  run = c.run;
  row = c.row;
  final = ground (
    arith,
    eq_other c.run.status status_completed status_failed refl
        ((eq_iff c.run.status status_completed).1 c.status),
  );
}

-- The window has a row.
HasRow : RunId → Table → Type 0
HasRow id t = (run : JobRun) × (t.row id ≡ some run)

complete_run-IsCompleted :
    {E : Type 0} (fault : Option E) (id : RunId) (message : String) (t : Table)
    → HasRow id t
    → (complete_run fault id message t).1 ≡ none
    → IsCompleted id (complete_run fault id message t).0
unfolding complete_run update_status set_status HasRow
complete_run-IsCompleted (some e) id message t (run, row) h = cc h
complete_run-IsCompleted none id message t (run, row) h = record {
  run = record run { status = status_completed; message = nullable_string message };
  row = rw row (
      row_written id (record run { status = status_completed; message = nullable_string message })
        t);
  status = refl;
}

claim-HasRow :
    (max_retries : ℕ) (id : RunId) (request_id : String) (row : Option JobRun) (t : Table)
    → t.row id ≡ row
    → (claim max_retries id request_id row t).1.acquired ≡ true
    → HasRow id (claim max_retries id request_id row t).0
unfolding claim HasRow
claim-HasRow max_retries id request_id none t at h =
    (inserted request_id, row_written id (inserted request_id) t)
claim-HasRow max_retries id request_id (some run) t at h =
    elim (Bool-cases (can_retry max_retries run)) [
      | inl retry ↦ rw retry (retried request_id run, row_written id (retried request_id run) t)
      | inr final ↦ rw final (run, at)
    ]

pub claim-run_id :
    (max_retries : ℕ) (id : RunId) (request_id : String) (row : Option JobRun) (t : Table)
    → (claim max_retries id request_id row t).1.run_id ≡ id
unfolding claim
claim-run_id max_retries id request_id none t = refl
claim-run_id max_retries id request_id (some run) t =
    elim (Bool-cases (can_retry max_retries run)) [
      | inl retry ↦ rw retry refl
      | inr final ↦ rw final refl
    ]

module _ {W E : Type 0} where
  -- The result is "accepted".
  unfoldable pub IsAccepted : Outcome W E → Type 0
  IsAccepted o = (r : TriggerResult) × (o.1 ≡ ok r) × (r.status ≡ "accepted")

  completed_accepts :
      (started : StartResult) (window_key : String) (summary : ExecutionSummary) (message : String)
      (world : W) (b : Table × Option E)
      → IsAccepted (completed started window_key summary message world b)
      → (b.1 ≡ none) × ((completed started window_key summary message world b).0.table ≡ b.0)
  unfolding completed IsAccepted
  completed_accepts started window_key summary message world (t, some e) (r, h, _) = cc h
  completed_accepts started window_key summary message world (t, none) (r, h, _) = (refl, refl)

module _ {W E : Type 0} (skip_message : String → String) (fail_message : E → String) where
  ran_accepts :
      (faults : Faults E) (started : StartResult) (window_key : String) (t : Table) (world : W)
      (summary : ExecutionSummary) (error : Option E)
      → HasRow started.run_id t
      → IsAccepted (ran skip_message fail_message faults started window_key t world summary error)
      → IsCompleted started.run_id
          (ran skip_message fail_message faults started window_key t world summary error).0.table
  unfolding ran IsAccepted
  ran_accepts faults started window_key t world summary (some e) row (r, h, _) = cc h
  ran_accepts faults started window_key t world summary none row accepted =
      let message = note_or_default summary.note in
      let (done, same) =
        completed_accepts started window_key summary message world
          (complete_run faults.at_complete started.run_id message t) accepted in
      subst (IsCompleted started.run_id) (sym same)
        (complete_run-IsCompleted faults.at_complete started.run_id message t row done)

  skipped_not-IsAccepted :
      (started : StartResult) (window_key message : String) (summary : ExecutionSummary)
      (s : State W)
      → ¬ IsAccepted {W = W} {E = E}
          (s, ok (trigger_result window_key started "skipped" message summary))
  unfolding IsAccepted
  skipped_not-IsAccepted started window_key message summary s (r, h, accepted) =
      not_both "skipped" "accepted" refl (sym (ap (λ x. x.status) (ok-injective h))) accepted

  if_accepts :
      (id : RunId) (b : Bool) (x y : Outcome W E)
      → (b ≡ true → IsAccepted x → IsCompleted id x.0.table)
      → ¬ IsAccepted y
      → IsAccepted (if b then x else y)
      → IsCompleted id (if b then x else y).0.table
  if_accepts id true x y hx hy accepted = hx refl accepted
  if_accepts id false x y hx hy accepted = absurd (hy accepted)

  claimed_accepts :
      (faults : Faults E) (runner : Runner W E) (id : RunId) (world : W) (b : Table × StartResult)
      → b.1.run_id ≡ id
      → (b.1.acquired ≡ true → HasRow id b.0)
      → IsAccepted
          (started_run skip_message fail_message faults runner id.window_key world (b.0, ok b.1))
      → IsCompleted id
          (started_run skip_message fail_message faults runner id.window_key world
            (b.0, ok b.1)).0.table
  unfolding started_run
  claimed_accepts faults runner id world (t, started) same row accepted =
      let job = runner id.window_key world in
      if_accepts id started.acquired _ _
        (λ acquired ran_accepted. IsCompleted-same same (
          ran_accepts faults started id.window_key t job.world (summary_or_empty job.summary)
            job.error (subst (λ x. HasRow x t) (sym same) (row acquired)) ran_accepted))
        (skipped_not-IsAccepted started id.window_key _ _ _) accepted

  start_accepts :
      (faults : Faults E) (fault : Option E) (runner : Runner W E) (max_retries : ℕ) (id : RunId)
      (request_id : String) (s : State W)
      → let started = start fault id request_id max_retries s.table in
        IsAccepted
          (started_run skip_message fail_message faults runner id.window_key s.world started)
        → IsCompleted id
            (started_run skip_message fail_message faults runner id.window_key s.world
              started).0.table
  unfolding start started_run IsAccepted
  start_accepts faults (some e) runner max_retries id request_id s (r, h, _) = cc h
  start_accepts faults none runner max_retries id request_id s accepted =
      let row = s.table.row id in
      claimed_accepts faults runner id s.world (claim max_retries id request_id row s.table)
        (claim-run_id max_retries id request_id row s.table)
        (claim-HasRow max_retries id request_id row s.table refl) accepted

  pub find_accepts :
      (max_retries : ℕ) (faults : Faults E) (id : RunId) (request_id : String) (s : State W)
      (o : Option (Runner W E))
      → IsAccepted (find_runner skip_message fail_message max_retries faults id request_id s o)
      → IsCompleted id
          (find_runner skip_message fail_message max_retries faults id request_id s o).0.table
  unfolding find_runner IsAccepted
  find_accepts max_retries faults id request_id s none (r, h, _) = cc h
  find_accepts max_retries faults id request_id s (some runner) accepted =
      start_accepts faults faults.at_start runner max_retries id request_id s accepted
