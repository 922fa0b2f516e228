-- ===== src/Repair/Tests.antt =====
-- A repair request at concrete values.
use stds_backend_go.Prelude.{◌≡◌, refl, List, [], ◌∷◌, none, some, All, ok, true}
use stds_backend_go.Prelude.Text.{trim_space, trim_optional}
use stds_backend_go.GoTime.{Time, date}
use stds_backend_go.Repair.Defs.{
  State, status_submitted, status_completed, normalize_state, is_valid_status, rehydrate,
}
use stds_backend_go.Repair.Graph.{
  Command, assign, progress, complete, cancel, apply, run, ◌⟶◌, apply-⟶, IsSound,
  submitted_run-IsSound,
}
use stds_backend_go.Repair.Normal.{NamesAssignee, rehydrate-run_repair}

abbrev noon : Time
noon = record { date = date 2024 3 1; clock = 0 }

abbrev request : State
request = record {
  id = "q1";
  property_id = "p1";
  room_id = "r1";
  submitted_by = "u1";
  assigned_to = none;
  title = "lamp";
  description = "";
  status = status_submitted;
  submitted_at = noon;
  assigned_at = none;
  completed_at = none;
  cancel_reason = none;
}

abbrev done : State
done = record request { status = status_completed; completed_at = some noon }

built : normalize_state request true ≡ ok request
unfolding normalize_state is_valid_status trim_space trim_optional
built = refl

abbrev commands : List Command
commands = assign "u2" noon ∷ progress ∷ complete noon ∷ cancel none ∷ []

apply-⟶_example : request.status ⟶ (apply (assign "u2" noon) request).0.status
apply-⟶_example = apply-⟶ (assign "u2" noon) request

submitted_run-IsSound_example : IsSound (run commands request)
submitted_run-IsSound_example = submitted_run-IsSound commands request refl

named : All NamesAssignee commands
unfolding trim_space
named = (refl, (refl, (refl, (refl, tt))))

rehydrate-run_repair_example : rehydrate (run commands request) ≡ ok (run commands request)
rehydrate-run_repair_example = rehydrate-run_repair request true commands built named
