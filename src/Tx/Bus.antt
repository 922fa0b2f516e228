-- ===== src/Tx/Bus.antt =====
-- internal/platform/eventbus/bus.go. A handler reads an event, changes the world `W` and returns an
-- error or nil. An event is a value of a Go type `Ev`; `key_of` is the name of its own type. The lock
-- of the bus orders `Subscribe` and the reading of the handlers; `Publish` runs on what it has read.
use stds_backend_go.Prelude.{
  ◌≡◌, refl, ℕ, suc, ◌+◌, Bool-cases, inl, inr, String, List, [], ◌∷◌, ◌++◌, Option, none, some,
  arith, ◌==◌, if◌then◌else◌, Method, return_nil, run_then, length, ap,
}

pub data PublishError (E : Type 0) : Type 0 where
  nil_event : PublishError E
  handler_failed : ℕ → E → PublishError E

abbrev pub Handler : Type 0 → Type 0 → Type 0 → Type 0
Handler W Ev E = Ev → Method W E

-- The handlers that are registered under each type.
pub record Bus (W Ev E : Type 0) : Type 0 where
  pub handlers : String → List (Handler W Ev E)

-- The error of the handler at the position i is wrapped and ends the loop.
unfoldable pub call_next :
    {W E : Type 0} → ℕ → W × Option E → Method W (PublishError E) → W × Option (PublishError E)
call_next i (w, none) rest = rest w
call_next i (w, some e) rest = (w, some (handler_failed i e))

call_next-then :
    {W E : Type 0} (i : ℕ) (r : W × Option E) (whole rest last : Method W (PublishError E))
    → ((v : W) → whole v ≡ run_then (rest v) last)
    → call_next i r whole ≡ run_then (call_next i r rest) last
unfolding call_next
call_next-then i (v, none) whole rest last h = h v
call_next-then i (v, some e) whole rest last h = refl

module _ {W Ev E : Type 0} where
  unfoldable pub new_bus : Bus W Ev E
  new_bus = record { handlers = λ event_type. [] }

  -- `Subscribe` at the type `event_type`.
  unfoldable pub subscribe : String → Handler W Ev E → Bus W Ev E → Bus W Ev E
  subscribe event_type handler bus = record {
    handlers = λ t. if t == event_type then bus.handlers t ++ (handler ∷ []) else bus.handlers t;
  }

  -- The loop of `Publish` over the handlers, of which the first has the position i.
  unfoldable pub call_all : ℕ → List (Handler W Ev E) → Ev → Method W (PublishError E)
  call_all i [] event w = (w, none)
  call_all i (handler ∷ handlers) event w =
      call_next i (handler event w) (call_all (suc i) handlers event)

  unfoldable pub publish : (Ev → String) → Bus W Ev E → Option Ev → Method W (PublishError E)
  publish key_of bus none w = (w, some nil_event)
  publish key_of bus (some event) w = call_all 0 (bus.handlers (key_of event)) event w

  call_all-snoc :
      (n i : ℕ) (handlers : List (Handler W Ev E)) (handler : Handler W Ev E) (event : Ev) (w : W)
      → i + length handlers ≡ n
      → call_all i (handlers ++ (handler ∷ [])) event w
        ≡ run_then (call_all i handlers event w) (λ v. call_next n (handler event v) return_nil)
  unfolding call_all
  call_all-snoc n i [] handler event w h =
      let same : i ≡ n = omega arith in ap (λ k. call_next k (handler event w) return_nil) same
  call_all-snoc n i (first ∷ handlers) handler event w h =
      call_next-then i (first event w) (call_all (suc i) (handlers ++ (handler ∷ [])) event)
        (call_all (suc i) handlers event) (λ v. call_next n (handler event v) return_nil)
        (λ v. call_all-snoc n (suc i) handlers handler event v (omega arith))

  -- A handler that is subscribed to the type of an event is called after all that were subscribed
  -- before it, if none of them fails, and its error is reported under its position. A handler for
  -- another type changes nothing of the publication.
  pub publish-subscribe :
      (key_of : Ev → String) (bus : Bus W Ev E) (event_type : String) (handler : Handler W Ev E)
      (event : Ev) (w : W)
      → publish key_of (subscribe event_type handler bus) (some event) w ≡ (
          if key_of event == event_type
          then run_then
              (publish key_of bus (some event) w)
              (λ v. call_next (length (bus.handlers (key_of event))) (handler event v) return_nil)
          else publish key_of bus (some event) w)
  unfolding publish subscribe
  publish-subscribe key_of bus event_type handler event w =
      elim (Bool-cases (key_of event == event_type)) [
        | inl same ↦ rw same (
            call_all-snoc (length (bus.handlers (key_of event))) 0 (bus.handlers (key_of event))
              handler event w (omega arith))
        | inr other ↦ rw other refl
      ]
