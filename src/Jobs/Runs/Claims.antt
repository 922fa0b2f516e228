-- ===== src/Jobs/Runs/Claims.antt =====
-- Any interleaving of the store's operations, by any number of callers: each is one transaction.
use stds_backend_go.Prelude.{
  ◌≡◌, refl, ℕ, suc, ◌+◌, ◌≤◌, Bool, true, false, ◌&&◌, Bool-cases, inl, inr, String, List, [], ◌∷◌,
  Option, none, some, arith, if◌then◌else◌, Result, ok, err, eq_iff, ap, subst,
}
use stds_backend_go.Jobs.Runs.Store
use stds_backend_go.Jobs.Runs.Store.{
  RunId, same_run, JobRun, Table, empty_table, write_row, StartResult, inserted, retried,
  start_result, can_retry, claim, set_status, update_status, complete_run, fail_run, skip_run,
  nullable_string, keep_request, status_completed, status_failed, status_skipped,
}

-- One call of the store, with the fault of its statements, if there is one.
pub data Step : Type 0 where
  start : Option String → RunId → String → Step
  complete fail skip : Option String → RunId → String → Step

-- Was the window claimed?
abbrev pub acquires : Result String StartResult → Bool
acquires (err fault) = false
acquires (ok result) = result.acquired

unfoldable pub apply : ℕ → Step → Table → Table
apply max_retries (start fault id request_id) t = (Store.start fault id request_id max_retries t).0
apply max_retries (complete fault id message) t = (complete_run fault id message t).0
apply max_retries (fail fault id message) t = (fail_run fault id message t).0
apply max_retries (skip fault id message) t = (skip_run fault id message t).0

-- 1 if the step claims the window id.
unfoldable pub claimed_by : ℕ → RunId → Step → Table → ℕ
claimed_by max_retries id (start fault other request_id) t =
    if same_run id other && acquires (Store.start fault other request_id max_retries t).1
    then 1
    else 0
claimed_by max_retries id (complete fault other message) t = 0
claimed_by max_retries id (fail fault other message) t = 0
claimed_by max_retries id (skip fault other message) t = 0

-- How often a sequence of steps claims the window id.
unfoldable pub claims : ℕ → RunId → List Step → Table → ℕ
claims max_retries id [] t = 0
claims max_retries id (step ∷ steps) t =
    claimed_by max_retries id step t + claims max_retries id steps (apply max_retries step t)

-- How often a window has been claimed, by its row.
abbrev attempts : Option JobRun → ℕ
attempts none = 0
attempts (some run) = suc run.retry_count

pub same_run_refl : (id : RunId) → same_run id id ≡ true
same_run_refl id =
    ground
      (arith, (eq_iff id.job_key id.job_key).1 refl, (eq_iff id.window_key id.window_key).1 refl)

pub eq_of_same_run : (a b : RunId) → same_run a b ≡ true → a ≡ b
eq_of_same_run a b h =
    let (job, window) = parts in λ i. record { job_key = job i; window_key = window i }
  where
    parts : (a.job_key ≡ b.job_key) × (a.window_key ≡ b.window_key)
    parts = ground (arith, eq_iff a.job_key b.job_key, eq_iff a.window_key b.window_key)

pub row_written : (id : RunId) (run : JobRun) (t : Table) → (write_row id run t).row id ≡ some run
row_written id run t = rw (same_run_refl id) refl

pub row_other :
    (id other : RunId) (run : JobRun) (t : Table)
    → same_run id other ≡ false
    → (write_row other run t).row id ≡ t.row id
row_other id other run t h = rw h refl

-- The row of id after `Start` for another window.
pub claim_other :
    (max_retries : ℕ) (id other : RunId) (request_id : String) (row : Option JobRun) (t : Table)
    → same_run id other ≡ false
    → (claim max_retries other request_id row t).0.row id ≡ t.row id
unfolding claim
claim_other max_retries id other request_id none t h = row_other id other (inserted request_id) t h
claim_other max_retries id other request_id (some run) t h =
    elim (Bool-cases (can_retry max_retries run)) [
      | inl retry ↦ rw retry (row_other id other (retried request_id run) t h)
      | inr final ↦ rw final refl
    ]

-- Setting the status of a row does not count as a claim of it.
set_status-attempts :
    (id other : RunId) (status message : String) (row : Option JobRun) (t : Table)
    → t.row other ≡ row
    → attempts ((set_status other status message row t).row id) ≡ attempts (t.row id)
unfolding set_status
set_status-attempts id other status message none t at = refl
set_status-attempts id other status message (some run) t at =
    elim (Bool-cases (same_run id other)) [
      | inl same ↦ rw (same, ap t.row (eq_of_same_run id other same), at) refl
      | inr differs ↦ rw differs refl
    ]

update_status-attempts :
    (id other : RunId) (fault : Option String) (status message : String) (t : Table)
    → attempts ((update_status fault other status message t).0.row id) ≡ attempts (t.row id)
unfolding update_status
update_status-attempts id other (some fault) status message t = refl
update_status-attempts id other none status message t =
    set_status-attempts id other status message (t.row other) t refl

module _ (max_retries : ℕ) (id : RunId) where
  claim_counts :
      (row : Option JobRun) (request_id : String) (t : Table)
      → t.row id ≡ row
      → attempts row ≤ suc max_retries
      → let (after, result) = claim max_retries id request_id row t in
        ((if result.acquired then 1 else 0) + attempts row ≡ attempts (after.row id))
        × (attempts (after.row id) ≤ suc max_retries)
  unfolding claim
  claim_counts none request_id t at le =
      rw (row_written id (inserted request_id) t) (refl, omega arith)
  claim_counts (some run) request_id t at le = elim (Bool-cases (can_retry max_retries run)) [
    | inl retry ↦
        rw (retry, row_written id (retried request_id run) t)
          (omega arith, retry_in_bounds run retry)
    | inr final ↦ rw (final, at) (omega arith, le)
  ]
    where
      retry_in_bounds :
          (run : JobRun)
          → can_retry max_retries run ≡ true
          → suc (suc run.retry_count) ≤ suc max_retries
      retry_in_bounds run h = unfold can_retry in ground arith

  unchanged_counts :
      (t : Table) (after : ℕ)
      → after ≡ attempts (t.row id)
      → attempts (t.row id) ≤ suc max_retries
      → (0 + attempts (t.row id) ≡ after) × (after ≤ suc max_retries)
  unchanged_counts t after same le = (omega arith, omega arith)

  start_counts :
      (other : RunId) (request_id : String) (t : Table)
      → attempts (t.row id) ≤ suc max_retries
      → let (after, result) = claim max_retries other request_id (t.row other) t in
        ((if same_run id other && result.acquired then 1 else 0) + attempts (t.row id)
          ≡ attempts (after.row id))
        × (attempts (after.row id) ≤ suc max_retries)
  start_counts other request_id t le = elim (Bool-cases (same_run id other)) [
    | inl same ↦ rw same (
        subst
          (λ o.
            ((if (claim max_retries o request_id (t.row o) t).1.acquired then 1 else 0)
                + attempts (t.row id)
              ≡ attempts ((claim max_retries o request_id (t.row o) t).0.row id))
            × (attempts ((claim max_retries o request_id (t.row o) t).0.row id) ≤ suc max_retries))
          (eq_of_same_run id other same) (claim_counts (t.row id) request_id t refl le))
    | inr differs ↦
        rw (differs, claim_other max_retries id other request_id (t.row other) t differs)
          (omega arith, le)
  ]

  -- A claim of the window adds one to its attempts, which stay below the bound; no other step
  -- changes them.
  step_counts :
      (step : Step) (t : Table)
      → attempts (t.row id) ≤ suc max_retries
      → (claimed_by max_retries id step t + attempts (t.row id)
          ≡ attempts ((apply max_retries step t).row id))
        × (attempts ((apply max_retries step t).row id) ≤ suc max_retries)
  unfolding apply claimed_by Store.start complete_run fail_run skip_run
  step_counts (start (some fault) other request_id) t le = ground arith
  step_counts (start none other request_id) t le = start_counts other request_id t le
  step_counts (complete fault other message) t le =
      unchanged_counts t _ (update_status-attempts id other fault status_completed message t) le
  step_counts (fail fault other message) t le =
      unchanged_counts t _ (update_status-attempts id other fault status_failed message t) le
  step_counts (skip fault other message) t le =
      unchanged_counts t _ (update_status-attempts id other fault status_skipped message t) le

  claims_from :
      (steps : List Step) (t : Table)
      → attempts (t.row id) ≤ suc max_retries
      → claims max_retries id steps t + attempts (t.row id) ≤ suc max_retries
  unfolding claims
  claims_from [] t le = omega arith
  claims_from (step ∷ steps) t le =
      let (adds, bound) = step_counts step t le in
      let rest = claims_from steps (apply max_retries step t) bound in omega arith

  -- Whatever calls of the store are made, by whom and in what order, a window is claimed at most
  -- once and then once for each retry that is allowed.
  pub claims_bounded :
      (steps : List Step) → claims max_retries id steps empty_table ≤ suc max_retries
  claims_bounded steps =
      let total : claims max_retries id steps empty_table + 0 ≤ suc max_retries =
        claims_from steps empty_table (omega arith) in
      omega arith
