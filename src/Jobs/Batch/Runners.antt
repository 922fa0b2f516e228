-- ===== src/Jobs/Batch/Runners.antt =====
-- The jobs of internal/application/jobs/batch.go that change the database in one transaction each
-- for a candidate.
use stds_backend_go.Prelude.{
  ℕ, Bool, true, false, String, List, Option, none, some, eqb, ◌==◌, if◌then◌else◌, Result, ok, err,
  ◌▸◌, length,
}
use stds_backend_go.Prelude.Text.{trim_space, string_value}
use stds_backend_go.Jobs.Runs.Trigger.{ExecutionSummary}
use stds_backend_go.Jobs.Batch.Defs.{
  JobError, concurrent_update, already_processed, BillingJobRepository, LeaseJobRepository,
  ForceTerminationJobRepository, NotificationSender, Parsers, Command, parse_daily_window_key,
  parse_monthly_window_key, Tally, skipped, failed, is_concurrent, is_processed, never, tallied,
  run_batch, with_key, OverdueReminderCandidate, MonthlySnapshotProperty, ForceTerminationCandidate,
}

-- The transactions.
module _ {W : Type 0} where
  abbrev pub after_exists :
      BillingJobRepository W → String → ℕ → ℕ → Result JobError Bool → Command W
  after_exists repo property_id year month (err e) w = (w, some e)
  after_exists repo property_id year month (ok true) w = (w, some already_processed)
  after_exists repo property_id year month (ok false) w =
      repo.create_monthly_snapshot property_id year month w

  unfoldable pub snapshot_once :
      BillingJobRepository W → ℕ → ℕ → MonthlySnapshotProperty → Command W
  snapshot_once repo year month c w =
      after_exists repo c.property_id year month
        (repo.monthly_snapshot_exists c.property_id year month w) w

  abbrev pub after_write_off :
      ForceTerminationJobRepository W
      → String
      → List String
      → W × Result JobError ℕ
      → W × Option JobError
  after_write_off repo id bill_ids (w, err e) = (w, some e)
  after_write_off repo id bill_ids (w, ok updated) =
      let finish =
        repo.mark_force_termination_bills_done id bill_ids ▸ repo.complete_force_termination id in
      if eqb updated (length bill_ids) then finish w else (w, some concurrent_update)

  abbrev pub after_list :
      ForceTerminationJobRepository W
      → ForceTerminationCandidate
      → Result JobError (List String)
      → Command W
  after_list repo c (err e) w = (w, some e)
  after_list repo c (ok bill_ids) w =
      after_write_off repo c.id bill_ids (repo.write_off_bills bill_ids c.reason w)

  unfoldable pub compensate :
      ForceTerminationJobRepository W → ForceTerminationCandidate → Command W
  compensate repo c w = after_list repo c (repo.list_pending_force_termination_bill_ids c.id w) w

  unfoldable pub send_reminder :
      (Command W → Command W)
      → BillingJobRepository W
      → Option (NotificationSender W)
      → OverdueReminderCandidate
      → W
      → W × Tally
  send_reminder within repo none c w =
      let email = trim_space (string_value c.tenant_email) in
      (w, if email == "" then skipped else failed)
  send_reminder within repo (some notifier) c w =
      let email = trim_space (string_value c.tenant_email) in
      if email == ""
      then (w, skipped)
      else tallied is_concurrent (
          within
            (repo.increment_overdue_notice_count c.id c.version
              ▸ notifier.send_overdue_bill_reminder (record { email = email; name = "" }) c)
            w)

-- `within` is `WithinTransaction` without events.
module _ {W : Type 0} (parsers : Parsers) (within : Command W → Command W) where
  unfoldable pub overdue_bills_scan :
      BillingJobRepository W → String → W → W × Result JobError ExecutionSummary
  overdue_bills_scan repo window_key =
      with_key (parse_daily_window_key parsers window_key) (λ today w.
        run_batch (λ c v. tallied is_concurrent (within (repo.mark_bill_overdue c.id c.version) v))
          (repo.list_overdue_scan_candidates today w) w)

  unfoldable pub overdue_bill_reminders :
      BillingJobRepository W
      → Option (NotificationSender W)
      → String
      → W
      → W × Result JobError ExecutionSummary
  overdue_bill_reminders repo notifier window_key =
      with_key (parse_daily_window_key parsers window_key) (λ today w.
        run_batch (send_reminder within repo notifier) (repo.list_overdue_reminder_candidates w) w)

  unfoldable pub lease_expiry_scan :
      LeaseJobRepository W → String → W → W × Result JobError ExecutionSummary
  lease_expiry_scan repo window_key =
      with_key (parse_daily_window_key parsers window_key) (λ today w.
        run_batch (λ c v. tallied is_concurrent (within (repo.mark_lease_expired c.id c.version) v))
          (repo.list_lease_expiry_candidates today w) w)

  unfoldable pub monthly_snapshot :
      BillingJobRepository W → String → W → W × Result JobError ExecutionSummary
  monthly_snapshot repo window_key =
      with_key (parse_monthly_window_key parsers window_key) (λ year_month w.
        run_batch
          (λ c v. tallied is_processed (within (snapshot_once repo year_month.0 year_month.1 c) v))
          (repo.list_monthly_snapshot_properties w) w)

  unfoldable pub force_termination_compensation :
      ForceTerminationJobRepository W → String → W → W × Result JobError ExecutionSummary
  force_termination_compensation repo window_key =
      with_key (parse_daily_window_key parsers window_key) (λ today w.
        run_batch (λ c v. tallied never (within (compensate repo c) v))
          (repo.list_in_progress_force_terminations w) w)
