-- ===== src/Repair/Normal.antt =====
-- `Rehydrate` of the states that the methods of a repair request leave.
use stds_backend_go.Prelude.{
  ◌≡◌, refl, Bool, true, false, not, Bool-cases, inl, inr, String, List, [], ◌∷◌, Option, none,
  some, arith, All, ◌==◌, ok, Leaves, Keeps, Keeps-method, Keeps-then,
}
use stds_backend_go.Prelude.Text.{
  trim_space, trim_space_idem, trim_optional, trim_to_optional, trim_optional_idem,
}
use stds_backend_go.GoTime.{Time}
use stds_backend_go.Repair.Defs
use stds_backend_go.Repair.Defs.{
  State, UpdateInput, normalize_state, rehydrate, is_valid_status, update_title, update_description,
  status_submitted, status_assigned, status_in_progress, status_completed, status_cancelled,
}
use stds_backend_go.Repair.Graph.{Command, update, assign, progress, complete, cancel, apply, run}

pub record IsStatus (status : String) : Type 0 where
  pub trimmed : trim_space status ≡ status
  pub known : is_valid_status status ≡ true

pub record IsNormal (s : State) : Type 0 where
  pub id : trim_space s.id ≡ s.id
  pub property_id : trim_space s.property_id ≡ s.property_id
  pub room_id : trim_space s.room_id ≡ s.room_id
  pub submitted_by : trim_space s.submitted_by ≡ s.submitted_by
  pub title : trim_space s.title ≡ s.title
  pub title_given : (s.title == "") ≡ false
  pub description : trim_space s.description ≡ s.description
  pub status : IsStatus s.status
  pub assigned_to : trim_optional s.assigned_to ≡ s.assigned_to
  pub cancel_reason : trim_optional s.cancel_reason ≡ s.cancel_reason

submitted-IsStatus : IsStatus status_submitted
unfolding trim_space is_valid_status
submitted-IsStatus = record { trimmed = refl; known = refl }

assigned-IsStatus : IsStatus status_assigned
unfolding trim_space is_valid_status
assigned-IsStatus = record { trimmed = refl; known = refl }

in_progress-IsStatus : IsStatus status_in_progress
unfolding trim_space is_valid_status
in_progress-IsStatus = record { trimmed = refl; known = refl }

completed-IsStatus : IsStatus status_completed
unfolding trim_space is_valid_status
completed-IsStatus = record { trimmed = refl; known = refl }

cancelled-IsStatus : IsStatus status_cancelled
unfolding trim_space is_valid_status
cancelled-IsStatus = record { trimmed = refl; known = refl }

module _ (s : State) (create : Bool) {t : State} (h : normalize_state s create ≡ ok t) where
  normal_ids :
      (trim_space t.id ≡ t.id)
      × (trim_space t.property_id ≡ t.property_id)
      × (trim_space t.room_id ≡ t.room_id)
      × (trim_space t.submitted_by ≡ t.submitted_by)
  unfolding normalize_state
  normal_ids = ground (
    arith,
    trim_space_idem s.id,
    trim_space_idem s.property_id,
    trim_space_idem s.room_id,
    trim_space_idem s.submitted_by,
  )

  normal_texts :
      (trim_space t.title ≡ t.title)
      × ((t.title == "") ≡ false)
      × (trim_space t.description ≡ t.description)
      × (trim_optional t.assigned_to ≡ t.assigned_to)
      × (trim_optional t.cancel_reason ≡ t.cancel_reason)
  unfolding normalize_state
  normal_texts = ground (
    arith,
    trim_space_idem s.title,
    trim_space_idem s.description,
    trim_optional_idem s.assigned_to,
    trim_optional_idem s.cancel_reason,
  )

  normal_status : (trim_space t.status ≡ t.status) × (is_valid_status t.status ≡ true)
  unfolding normalize_state
  normal_status = ground (arith, trim_space_idem s.status, submitted-IsStatus.trimmed)

  normalize_state-IsNormal : IsNormal t
  normalize_state-IsNormal =
      let (id, property_id, room_id, submitted_by) = normal_ids in
      let (title, title_given, description, assigned_to, cancel_reason) = normal_texts in
      let (trimmed, known) = normal_status in
      record {
        id = id;
        property_id = property_id;
        room_id = room_id;
        submitted_by = submitted_by;
        title = title;
        title_given = title_given;
        description = description;
        status = record { trimmed = trimmed; known = known };
        assigned_to = assigned_to;
        cancel_reason = cancel_reason;
      }

rehydrate_normal : (t : State) → IsNormal t → rehydrate t ≡ ok t
unfolding rehydrate normalize_state
rehydrate_normal t n = ground arith

with_title :
    (s : State) (x : String)
    → IsNormal s
    → trim_space x ≡ x
    → (x == "") ≡ false
    → IsNormal (record s { title = x })
with_title s x n h e = ground arith

with_description :
    (s : State) (x : String)
    → IsNormal s
    → trim_space x ≡ x
    → IsNormal (record s { description = x })
with_description s x n h = ground arith

with_status :
    (s : State) (x : String) → IsNormal s → IsStatus x → IsNormal (record s { status = x })
with_status s x n h = ground arith

update_title-IsNormal :
    (input : Option String) (s : State) → IsNormal s → Leaves IsNormal (update_title input s)
unfolding update_title
update_title-IsNormal none s n = record { holds = n }
update_title-IsNormal (some input) s n = elim (Bool-cases (trim_space input == "")) [
  | inl blank ↦ rw blank (record { holds = n })
  | inr full ↦
      rw full (record { holds = with_title s (trim_space input) n (trim_space_idem input) full })
]

update_description-IsNormal :
    (input : Option String) (s : State) → IsNormal s → Leaves IsNormal (update_description input s)
unfolding update_description
update_description-IsNormal none s n = record { holds = n }
update_description-IsNormal (some input) s n = record {
  holds = with_description s (trim_space input) n (trim_space_idem input);
}

update-IsNormal : (input : UpdateInput) → Keeps IsNormal (Defs.update input)
unfolding Defs.update
update-IsNormal input =
    Keeps-then (Keeps-method _ (update_title-IsNormal input.title))
      (Keeps-method _ (update_description-IsNormal input.description))

trim_optional_full :
    (to : String)
    → (trim_space to == "") ≡ false
    → trim_optional (some (trim_space to)) ≡ some (trim_space to)
unfolding trim_optional trim_to_optional
trim_optional_full to h = ground (arith, trim_space_idem to)

assign-IsNormal :
    (to : String) (at : Time) (s : State)
    → (trim_space to == "") ≡ false
    → IsNormal s
    → IsNormal (Defs.assign to at s).0
unfolding Defs.assign
assign-IsNormal to at s h n = ground (arith, trim_optional_full to h, assigned-IsStatus)

progress-IsNormal : (s : State) → IsNormal s → IsNormal (Defs.progress s).0
unfolding Defs.progress
progress-IsNormal s n = ground (arith, in_progress-IsStatus)

complete-IsNormal : (at : Time) (s : State) → IsNormal s → IsNormal (Defs.complete at s).0
unfolding Defs.complete
complete-IsNormal at s n = ground (arith, completed-IsStatus)

cancel-IsNormal :
    (reason : Option String) (s : State) → IsNormal s → IsNormal (Defs.cancel reason s).0
unfolding Defs.cancel
cancel-IsNormal reason s n = ground (arith, trim_optional_idem reason, cancelled-IsStatus)

-- An assignment names an assignee that is not blank.
abbrev pub names_assignee : Command → Bool
names_assignee (update input) = true
names_assignee (assign to at) = not (trim_space to == "")
names_assignee progress = true
names_assignee (complete at) = true
names_assignee (cancel reason) = true

abbrev pub NamesAssignee : Command → Type 0
NamesAssignee c = names_assignee c ≡ true

apply-IsNormal : (c : Command) (s : State) → NamesAssignee c → IsNormal s → IsNormal (apply c s).0
unfolding apply
apply-IsNormal (update input) s h n = ((update-IsNormal input).keeps s n).holds
apply-IsNormal (assign to at) s h n = assign-IsNormal to at s (ground arith) n
apply-IsNormal progress s h n = progress-IsNormal s n
apply-IsNormal (complete at) s h n = complete-IsNormal at s n
apply-IsNormal (cancel reason) s h n = cancel-IsNormal reason s n

run-IsNormal :
    (cs : List Command) (s : State) → All NamesAssignee cs → IsNormal s → IsNormal (run cs s)
unfolding run
run-IsNormal [] s h n = n
run-IsNormal (c ∷ cs) s h n = run-IsNormal cs (apply c s).0 h.1 (apply-IsNormal c s h.0 n)

-- After any sequence of calls, whatever they return, on a repair request that `New` or `Rehydrate`
-- returned, `Rehydrate` accepts the request and returns it unchanged, if every assignment names an
-- assignee that is not blank.
pub rehydrate-run_repair :
    (s : State) (create : Bool) (cs : List Command) {t : State}
    → normalize_state s create ≡ ok t
    → All NamesAssignee cs
    → rehydrate (run cs t) ≡ ok (run cs t)
rehydrate-run_repair s create cs {t} h named =
    rehydrate_normal (run cs t) (run-IsNormal cs t named (normalize_state-IsNormal s create h))
