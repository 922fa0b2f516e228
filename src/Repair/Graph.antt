-- ===== src/Repair/Graph.antt =====
-- The diagram of a repair request, and its sequences of commands.
use stds_backend_go.Prelude.{
  ◌≡◌, refl, ◌≢◌, ◌⊎◌, inl, inr, ◌∙◌, sym, false, String, List, [], ◌∷◌, Option, none, arith, ◌==◌,
  Method, eq_iff, Bool-cases, Leaves, leaves_rules,
}
use stds_backend_go.Prelude.Text.{not_both, eq_of_eqb}
use stds_backend_go.GoTime.{Time}
use stds_backend_go.Repair.Defs
use stds_backend_go.Repair.Defs.{
  State, UpdateInput, RepairError, status_submitted, status_assigned, status_in_progress,
  status_completed, status_cancelled,
}

-- A call of one of the methods that change a repair request.
pub data Command : Type 0 where
  update : UpdateInput → Command
  assign : String → Time → Command
  progress : Command
  complete : Time → Command
  cancel : Option String → Command

unfoldable pub apply : Command → Method State RepairError
apply (update input) = Defs.update input
apply (assign to at) = Defs.assign to at
apply progress = Defs.progress
apply (complete at) = Defs.complete at
apply (cancel reason) = Defs.cancel reason

-- The transitions that the design allows.
infix 40 ◌⟶◌
pub data ◌⟶◌ (s t : String) : Type 0 where
  stays : s ≡ t → s ⟶ t
  is_assigned : s ≡ status_submitted → t ≡ status_assigned → s ⟶ t
  is_started : s ≡ status_assigned → t ≡ status_in_progress → s ⟶ t
  is_completed : s ≡ status_in_progress → t ≡ status_completed → s ⟶ t
  is_cancelled :
      (s ≡ status_submitted) ⊎ (s ≡ status_assigned) ⊎ (s ≡ status_in_progress)
      → t ≡ status_cancelled
      → s ⟶ t

update_status : (input : UpdateInput) (s : State) → s.status ≡ (Defs.update input s).0.status
unfolding Defs.update Defs.update_title Defs.update_description
update_status input s = ground arith

-- Every command, accepted or not, moves the status along the diagram or leaves it.
pub apply-⟶ : (c : Command) (s : State) → s.status ⟶ (apply c s).0.status
unfolding apply Defs.assign Defs.progress Defs.complete Defs.cancel
apply-⟶ (update input) s = stays (update_status input s)
apply-⟶ (assign to at) s = grind (arith, stays, is_assigned, eq_iff)
apply-⟶ progress s = grind (arith, stays, is_started, eq_iff)
apply-⟶ (complete at) s = grind (arith, stays, is_completed, eq_iff)
apply-⟶ (cancel reason) s = grind (arith, stays, is_cancelled, eq_iff)

abbrev pub IsClosed : String → Type 0
IsClosed status = (status ≡ status_completed) ⊎ (status ≡ status_cancelled)

closed_not :
    {s : String} (x : String)
    → (status_completed == x) ≡ false
    → (status_cancelled == x) ≡ false
    → IsClosed s
    → ¬ (s ≡ x)
closed_not x p q (inl c) = not_both status_completed x p c
closed_not x p q (inr c) = not_both status_cancelled x q c

closed_stays : {s t : String} → IsClosed s → s ⟶ t → t ≡ s
closed_stays h (stays e) = sym e
closed_stays h (is_assigned e _) = absurd (closed_not status_submitted refl refl h e)
closed_stays h (is_started e _) = absurd (closed_not status_assigned refl refl h e)
closed_stays h (is_completed e _) = absurd (closed_not status_in_progress refl refl h e)
closed_stays h (is_cancelled (inl e) _) = absurd (closed_not status_submitted refl refl h e)
closed_stays h (is_cancelled (inr (inl e)) _) = absurd (closed_not status_assigned refl refl h e)
closed_stays h (is_cancelled (inr (inr e)) _) = absurd (closed_not status_in_progress refl refl h e)

IsClosed-same : {s t : String} → IsClosed s → t ≡ s → IsClosed t
IsClosed-same (inl c) e = inl (e ∙ c)
IsClosed-same (inr c) e = inr (e ∙ c)

-- The request after a sequence of calls, whatever they returned.
unfoldable pub run : List Command → State → State
run [] s = s
run (c ∷ cs) s = run cs (apply c s).0

-- A completed or cancelled request stays so under every sequence of commands.
pub closed_repair_is_final :
    (cs : List Command) (s : State) → IsClosed s.status → (run cs s).status ≡ s.status
unfolding run
closed_repair_is_final [] s h = refl
closed_repair_is_final (c ∷ cs) s h =
    let e = closed_stays h (apply-⟶ c s) in
    closed_repair_is_final cs (apply c s).0 (IsClosed-same h e) ∙ e

-- What a status says of the other fields.
pub record IsSound (s : State) : Type 0 where
  pub assigned : s.status ≡ status_assigned → (s.assigned_to ≢ none) × (s.assigned_at ≢ none)
  pub in_progress : s.status ≡ status_in_progress → (s.assigned_to ≢ none) × (s.assigned_at ≢ none)
  pub completed :
      s.status ≡ status_completed
      → (s.assigned_to ≢ none) × (s.assigned_at ≢ none) × (s.completed_at ≢ none)

-- A state whose status is one of the literals says nothing about the others.
IsSound-at :
    (s : State) (x : String)
    → s.status ≡ x
    → (x ≡ status_assigned → (s.assigned_to ≢ none) × (s.assigned_at ≢ none))
    → (x ≡ status_in_progress → (s.assigned_to ≢ none) × (s.assigned_at ≢ none))
    → (x ≡ status_completed
        → (s.assigned_to ≢ none) × (s.assigned_at ≢ none) × (s.completed_at ≢ none))
    → IsSound s
IsSound-at s x e a b c = record {
  assigned = λ p. a (sym e ∙ p);
  in_progress = λ p. b (sym e ∙ p);
  completed = λ p. c (sym e ∙ p);
}

abbrev otherwise : {A : Type 0} (x y : String) → (x == y) ≡ false → x ≡ y → A
otherwise x y ne e = absurd (not_both x y ne refl e)

module _ (s : State) (h : IsSound s) where
  update-IsSound : (input : UpdateInput) → IsSound (Defs.update input s).0
  unfolding Defs.update Defs.update_title Defs.update_description
  update-IsSound input = ground arith

  assign-IsSound : (to : String) (at : Time) → IsSound (Defs.assign to at s).0
  unfolding Defs.assign
  assign-IsSound to at = elim (Bool-cases (s.status == status_submitted)) [
    | inl yes_submitted ↦ rw yes_submitted (
        IsSound-at _ status_assigned refl (λ _. ((λ e. cc), (λ e. cc)))
          (otherwise status_assigned status_in_progress refl)
          (otherwise status_assigned status_completed refl))
    | inr other ↦ rw other h
  ]

  progress-IsSound : IsSound (Defs.progress s).0
  unfolding Defs.progress
  progress-IsSound = elim (Bool-cases (s.status == status_assigned)) [
    | inl is ↦ rw is (
        IsSound-at _ status_in_progress refl (otherwise status_in_progress status_assigned refl)
          (λ _. h.assigned (eq_of_eqb is)) (otherwise status_in_progress status_completed refl))
    | inr other ↦ rw other h
  ]

  complete-IsSound : (at : Time) → IsSound (Defs.complete at s).0
  unfolding Defs.complete
  complete-IsSound at = elim (Bool-cases (s.status == status_in_progress)) [
    | inl is ↦ rw is (
        IsSound-at _ status_completed refl (otherwise status_completed status_assigned refl)
          (otherwise status_completed status_in_progress refl)
          (λ _. let (a, b) = h.in_progress (eq_of_eqb is) in (a, b, (λ e. cc))))
    | inr other ↦ rw other h
  ]

  cancelled-IsSound :
      (reason : Option String)
      → IsSound (record s { cancel_reason = reason; status = status_cancelled })
  cancelled-IsSound reason =
      IsSound-at _ status_cancelled refl (otherwise status_cancelled status_assigned refl)
        (otherwise status_cancelled status_in_progress refl)
        (otherwise status_cancelled status_completed refl)

  cancel-IsSound : (reason : Option String) → Leaves IsSound (Defs.cancel reason s)
  unfolding Defs.cancel
  cancel-IsSound reason = search (leaves_rules, h, cancelled-IsSound) depth 10

apply-IsSound : (c : Command) (s : State) → IsSound s → IsSound (apply c s).0
unfolding apply
apply-IsSound (update input) s h = update-IsSound s h input
apply-IsSound (assign to at) s h = assign-IsSound s h to at
apply-IsSound progress s h = progress-IsSound s h
apply-IsSound (complete at) s h = complete-IsSound s h at
apply-IsSound (cancel reason) s h = (cancel-IsSound s h reason).holds

run-IsSound : (cs : List Command) (s : State) → IsSound s → IsSound (run cs s)
unfolding run
run-IsSound [] s h = h
run-IsSound (c ∷ cs) s h = run-IsSound cs (apply c s).0 (apply-IsSound c s h)

-- After any sequence of calls on a submitted request, an assigned request and one in progress have
-- an assignee and the time of the assignment, and a completed one has the time of its completion
-- as well.
pub submitted_run-IsSound :
    (cs : List Command) (s : State) → s.status ≡ status_submitted → IsSound (run cs s)
submitted_run-IsSound cs s e = run-IsSound cs s (
    IsSound-at s status_submitted e (otherwise status_submitted status_assigned refl)
      (otherwise status_submitted status_in_progress refl)
      (otherwise status_submitted status_completed refl))
