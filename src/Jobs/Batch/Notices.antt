-- ===== src/Jobs/Batch/Notices.antt =====
-- The job of internal/application/jobs/batch.go that tells the owners of leases that end soon.
use stds_backend_go.Prelude.{
  Bool, true, false, ◌||◌, String, List, [], ◌∷◌, Option, none, some, ◌==◌, if◌then◌else◌, Result,
  ok, err,
}
use stds_backend_go.Prelude.Text.{trim_space}
use stds_backend_go.Prelude.Sets.{has}
use stds_backend_go.GoTime.{add_days}
use stds_backend_go.Jobs.Runs.Trigger.{ExecutionSummary}
use stds_backend_go.Jobs.Batch.Defs.{
  JobError, LeaseJobRepository, NotificationSender, Parsers, parse_daily_window_key, Tally,
  processed, skipped, failed, run_batch, with_key, NotificationRecipient,
  LeaseExpiringSoonCandidate,
}

abbrev pub is_error : Option JobError → Bool
is_error none = false
is_error (some e) = true

-- `filterRecipients`: `seen` holds the addresses of the recipients before.
unfoldable pub filter_from : List String → List NotificationRecipient → List NotificationRecipient
filter_from seen [] = []
filter_from seen (recipient ∷ recipients) =
    let email = trim_space recipient.email in
    let skip = filter_from seen recipients in
    let keep = filter_from (email ∷ seen) recipients in
    if email == ""
    then skip
    else if has seen email
    then skip
    else record recipient { email = email } ∷ keep

unfoldable pub filter_recipients : List NotificationRecipient → List NotificationRecipient
unfolding filter_from
filter_recipients recipients = filter_from [] recipients

-- The loop over the recipients: every one is tried, and the flag stays true once it is.
unfoldable pub send_all :
    {W : Type 0}
    → NotificationSender W
    → LeaseExpiringSoonCandidate
    → List NotificationRecipient
    → Bool
    → W
    → W × Bool
send_all notifier c [] any_failed w = (w, any_failed)
send_all notifier c (recipient ∷ recipients) any_failed w =
    let (after, e) = notifier.send_lease_expiring_soon recipient c w in
    send_all notifier c recipients (any_failed || is_error e) after

abbrev pub tally_notice : {W : Type 0} → W × Bool → W × Tally
tally_notice (w, any_failed) = (w, if any_failed then failed else processed)

unfoldable pub notify :
    {W : Type 0}
    → Option (NotificationSender W)
    → LeaseExpiringSoonCandidate
    → List NotificationRecipient
    → W
    → W × Tally
notify notifier c [] w = (w, skipped)
notify none c (recipient ∷ recipients) w = (w, failed)
notify (some notifier) c (recipient ∷ recipients) w =
    tally_notice (send_all notifier c (recipient ∷ recipients) false w)

abbrev pub notify_listed :
    {W : Type 0}
    → Option (NotificationSender W)
    → LeaseExpiringSoonCandidate
    → Result JobError (List NotificationRecipient)
    → W
    → W × Tally
notify_listed notifier c (err e) w = (w, failed)
notify_listed notifier c (ok recipients) w = notify notifier c (filter_recipients recipients) w

-- There is no transaction around a notice.
unfoldable pub lease_expiring_soon_reminder :
    {W : Type 0}
    → Parsers
    → LeaseJobRepository W
    → Option (NotificationSender W)
    → String
    → W
    → W × Result JobError ExecutionSummary
lease_expiring_soon_reminder parsers repo notifier window_key =
    with_key (parse_daily_window_key parsers window_key) (λ today w.
      run_batch
        (λ c v.
          notify_listed notifier c (repo.list_lease_expiring_soon_recipients c.property_id v) v)
        (repo.list_lease_expiring_soon_candidates (add_days 30 today) w) w)
