-- ===== src/Jobs/Batch/Defs.antt =====
-- The jobs of internal/application/jobs/batch.go, in a world `W` that the repositories, the
-- transaction runner and the notifier change. They and `time.Parse` are parameters. A count goes up
-- by one per candidate of a list, so it stays below the bound of `int`.
use stds_backend_go.Prelude.{
  ℕ, suc, Bool, true, false, String, List, [], ◌∷◌, Option, none, some, ◌==◌, if◌then◌else◌, Result,
  ok, err, Method,
}
use stds_backend_go.Prelude.Int.{ℤ}
use stds_backend_go.Prelude.Text.{trim_space}
use stds_backend_go.GoTime.{Date}
use stds_backend_go.Jobs.Runs.Trigger.{ExecutionSummary, empty_summary}

pub data JobError : Type 0 where
  invalid_window_key concurrent_update already_processed other_error : JobError

pub record BillCandidate : Type 0 where
  pub id : String
  pub version : ℤ

pub record OverdueReminderCandidate : Type 0 where
  pub id : String
  pub tenant_id : String
  pub tenant_email : Option String
  pub amount : Option ℤ
  pub due_date : Date
  pub overdue_notice_count : ℤ
  pub version : ℤ

pub record MonthlySnapshotProperty : Type 0 where
  pub property_id : String

pub record LeaseCandidate : Type 0 where
  pub id : String
  pub version : ℤ

pub record LeaseExpiringSoonCandidate : Type 0 where
  pub id : String
  pub property_id : String
  pub tenant_id : String
  pub room_id : String
  pub end_date : Date

pub record ForceTerminationCandidate : Type 0 where
  pub id : String
  pub reason : String

pub record NotificationRecipient : Type 0 where
  pub email : String
  pub name : String

-- A query reads the world; a command changes it and returns an error or nil.
abbrev pub Query : Type 0 → Type 0 → Type 0
Query W A = W → Result JobError A

abbrev pub Command : Type 0 → Type 0
Command W = Method W JobError

pub record BillingJobRepository (W : Type 0) : Type 0 where
  pub list_overdue_scan_candidates : Date → Query W (List BillCandidate)
  pub mark_bill_overdue : String → ℤ → Command W
  pub list_overdue_reminder_candidates : Query W (List OverdueReminderCandidate)
  pub increment_overdue_notice_count : String → ℤ → Command W
  pub list_monthly_snapshot_properties : Query W (List MonthlySnapshotProperty)
  pub monthly_snapshot_exists : String → ℕ → ℕ → Query W Bool
  pub create_monthly_snapshot : String → ℕ → ℕ → Command W

pub record LeaseJobRepository (W : Type 0) : Type 0 where
  pub list_lease_expiry_candidates : Date → Query W (List LeaseCandidate)
  pub mark_lease_expired : String → ℤ → Command W
  pub list_lease_expiring_soon_candidates : Date → Query W (List LeaseExpiringSoonCandidate)
  pub list_lease_expiring_soon_recipients : String → Query W (List NotificationRecipient)

-- `write_off_bills` returns the number of bills that it has written off.
pub record ForceTerminationJobRepository (W : Type 0) : Type 0 where
  pub list_in_progress_force_terminations : Query W (List ForceTerminationCandidate)
  pub list_pending_force_termination_bill_ids : String → Query W (List String)
  pub write_off_bills : List String → String → W → W × Result JobError ℕ
  pub mark_force_termination_bills_done : String → List String → Command W
  pub complete_force_termination : String → Command W

pub record NotificationSender (W : Type 0) : Type 0 where
  pub send_overdue_bill_reminder : NotificationRecipient → OverdueReminderCandidate → Command W
  pub send_lease_expiring_soon : NotificationRecipient → LeaseExpiringSoonCandidate → Command W

-- `time.Parse` with the layouts of a day and of a month.
pub record Parsers : Type 0 where
  pub parse_day : String → Option Date
  pub parse_month : String → Option (ℕ × ℕ)

abbrev pub or_invalid {ℓ} : {A : Type ℓ} → Option A → Result JobError A
or_invalid none = err invalid_window_key
or_invalid (some a) = ok a

unfoldable pub parse_daily_window_key : Parsers → String → Result JobError Date
parse_daily_window_key parsers window_key =
    let value = trim_space window_key in
    if value == "" then err invalid_window_key else or_invalid (parsers.parse_day value)

unfoldable pub parse_monthly_window_key : Parsers → String → Result JobError (ℕ × ℕ)
parse_monthly_window_key parsers window_key =
    let value = trim_space window_key in
    if value == "" then err invalid_window_key else or_invalid (parsers.parse_month value)

-- What a round of a loop does to the counts.
pub data Tally : Type 0 where
  processed skipped failed : Tally

unfoldable pub count : Tally → ExecutionSummary → ExecutionSummary
count processed s = record s { processed_count = suc s.processed_count }
count skipped s = record s { skipped_count = suc s.skipped_count }
count failed s = record s { failed_count = suc s.failed_count }

-- The `switch` after a transaction. `skips` are the errors that count as skipped.
abbrev pub tally_of : (JobError → Bool) → Option JobError → Tally
tally_of skips none = processed
tally_of skips (some e) = if skips e then skipped else failed

abbrev pub is_concurrent : JobError → Bool
is_concurrent concurrent_update = true
is_concurrent invalid_window_key = false
is_concurrent already_processed = false
is_concurrent other_error = false

abbrev pub is_processed : JobError → Bool
is_processed already_processed = true
is_processed invalid_window_key = false
is_processed concurrent_update = false
is_processed other_error = false

abbrev pub never : JobError → Bool
never e = false

abbrev pub tallied : {W : Type 0} → (JobError → Bool) → W × Option JobError → W × Tally
tallied skips (w, e) = (w, tally_of skips e)

-- The loop over the candidates.
unfoldable pub for_each :
    {W C : Type 0} → (C → W → W × Tally) → List C → ExecutionSummary → W → W × ExecutionSummary
for_each round [] summary w = (w, summary)
for_each round (candidate ∷ candidates) summary w =
    let (after, tally) = round candidate w in for_each round candidates (count tally summary) after

-- The candidates are listed, run through, and the note is written.
unfoldable pub run_batch :
    {W C : Type 0}
    → (C → W → W × Tally)
    → Result JobError (List C)
    → W
    → W × Result JobError ExecutionSummary
run_batch round (err e) w = (w, err e)
run_batch round (ok candidates) w =
    let (after, summary) = for_each round candidates empty_summary w in
    (after, ok (record summary { note = "job completed" }))

unfoldable pub with_key :
    {W A : Type 0}
    → Result JobError A
    → (A → W → W × Result JobError ExecutionSummary)
    → W
    → W × Result JobError ExecutionSummary
with_key (err e) job w = (w, err e)
with_key (ok a) job w = job a w
