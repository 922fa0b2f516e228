-- ===== src/Repair/Defs.antt =====
-- The repair request aggregate.
use stds_backend_go.Prelude.{
  Bool, true, false, not, ◌&&◌, ◌||◌, String, Option, none, some, ◌==◌, if◌then◌else◌, Result, ok,
  err, Method, ◌▸◌,
}
use stds_backend_go.Prelude.Text.{trim_space, trim_optional}
use stds_backend_go.GoTime.{Time}

abbrev pub status_submitted : String
status_submitted = "submitted"

abbrev pub status_assigned : String
status_assigned = "assigned"

abbrev pub status_in_progress : String
status_in_progress = "in_progress"

abbrev pub status_completed : String
status_completed = "completed"

abbrev pub status_cancelled : String
status_cancelled = "cancelled"

pub record State : Type 0 where
  pub id : String
  pub property_id : String
  pub room_id : String
  pub submitted_by : String
  pub assigned_to : Option String
  pub title : String
  pub description : String
  pub status : String
  pub submitted_at : Time
  pub assigned_at : Option Time
  pub completed_at : Option Time
  pub cancel_reason : Option String

pub record UpdateInput : Type 0 where
  pub title : Option String
  pub description : Option String

pub data RepairError : Type 0 where
  title_required invalid_status invalid_status_for_assign invalid_status_for_progress : RepairError
  invalid_status_for_complete repair_already_completed invalid_status_for_cancel : RepairError

unfoldable pub is_valid_status : String → Bool
is_valid_status status =
    status == status_submitted
    || status == status_assigned
    || status == status_in_progress
    || status == status_completed
    || status == status_cancelled

unfoldable pub normalize_state : State → Bool → Result RepairError State
normalize_state state create =
    let title = trim_space state.title in
    let trimmed = trim_space state.status in
    let status = if trimmed == "" && create then status_submitted else trimmed in
    if title == ""
    then err title_required
    else if not (is_valid_status status)
    then err invalid_status
    else ok (record state {
      id = trim_space state.id;
      property_id = trim_space state.property_id;
      room_id = trim_space state.room_id;
      submitted_by = trim_space state.submitted_by;
      title = title;
      description = trim_space state.description;
      status = status;
      assigned_to = trim_optional state.assigned_to;
      cancel_reason = trim_optional state.cancel_reason;
    })

unfoldable pub new : State → Result RepairError State
new state = normalize_state state true

unfoldable pub rehydrate : State → Result RepairError State
rehydrate state = normalize_state state false

unfoldable pub update_title : Option String → Method State RepairError
update_title none a = (a, none)
update_title (some input) a =
    let title = trim_space input in
    if title == "" then (a, some title_required) else (record a { title = title }, none)

unfoldable pub update_description : Option String → Method State RepairError
update_description none a = (a, none)
update_description (some input) a = (record a { description = trim_space input }, none)

unfoldable pub update : UpdateInput → Method State RepairError
update input = update_title input.title ▸ update_description input.description

unfoldable pub assign : String → Time → Method State RepairError
assign assigned_to assigned_at a =
    if not (a.status == status_submitted) then (a, some invalid_status_for_assign) else (
      record a {
        assigned_to = some (trim_space assigned_to);
        assigned_at = some assigned_at;
        status = status_assigned;
      },
      none,
    )

unfoldable pub progress : Method State RepairError
progress a =
    if not (a.status == status_assigned)
    then (a, some invalid_status_for_progress)
    else (record a { status = status_in_progress }, none)

unfoldable pub complete : Time → Method State RepairError
complete completed_at a =
    if not (a.status == status_in_progress)
    then (a, some invalid_status_for_complete)
    else (record a { completed_at = some completed_at; status = status_completed }, none)

unfoldable pub cancel : Option String → Method State RepairError
cancel reason a =
    if a.status == status_completed
    then (a, some repair_already_completed)
    else if a.status == status_submitted
        || a.status == status_assigned
        || a.status == status_in_progress
    then (record a { cancel_reason = trim_optional reason; status = status_cancelled }, none)
    else (a, some invalid_status_for_cancel)
