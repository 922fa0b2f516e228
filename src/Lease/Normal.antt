-- ===== src/Lease/Normal.antt =====
-- What `New` and `Rehydrate` accept is a fixed point of normalization, and the commands keep it so.
use stds_backend_go.Prelude.{
  ◌≡◌, refl, ◌∙◌, ap, sym, subst, Bool, true, false, String, arith, ◌==◌, Bool-cases, inl, inr, ok,
  ◌>>◌, >>=-inverts, ok-injective,
}
use stds_backend_go.Prelude.Text.{trim_space, trim_space_idem}
use stds_backend_go.Periods.Defs.{cadence_monthly}
use stds_backend_go.Lease.Defs.{
  State, default_to, trim_state, check_state, fill_defaults, normalize_state, rehydrate,
}

-- A state that `normalizeState` leaves as it is and accepts.
pub record IsNormal (s : State) : Type 0 where
  pub trimmed : trim_state s ≡ s
  pub checked : check_state s ≡ ok tt

default_to-trim_space :
    (default value : String)
    → trim_space default ≡ default
    → (default == "") ≡ false
    → default_to default (trim_space (default_to default (trim_space value)))
      ≡ default_to default (trim_space value)
default_to-trim_space default value h e = elim (Bool-cases (trim_space value == "")) [
  | inl empty ↦ rw empty (rw (h, e))
  | inr full ↦ rw full (rw (trim_space_idem value, full))
]

trim_monthly : trim_space cadence_monthly ≡ cadence_monthly
unfolding trim_space
trim_monthly = refl

trim_state_idem : (s : State) → trim_state (trim_state s) ≡ trim_state s
trim_state_idem s = ground (
  arith,
  trim_space_idem s.tenant_id,
  trim_space_idem s.room_id,
  trim_space_idem s.property_id,
  trim_space_idem s.electricity_billing_cadence,
  default_to-trim_space cadence_monthly s.rent_billing_cadence trim_monthly refl,
)

check_state-fill_defaults : (s : State) → check_state (fill_defaults s) ≡ check_state s
unfolding check_state
check_state-fill_defaults s = refl

IsNormal-trim_state : (s : State) → check_state (trim_state s) ≡ ok tt → IsNormal (trim_state s)
IsNormal-trim_state s h = record { trimmed = trim_state_idem s; checked = h }

IsNormal-fill_defaults :
    (s : State) → check_state (trim_state s) ≡ ok tt → IsNormal (fill_defaults (trim_state s))
IsNormal-fill_defaults s h = record {
  trimmed = ap fill_defaults (trim_state_idem s);
  checked = check_state-fill_defaults (trim_state s) ∙ h;
}

pub normalize_state-IsNormal :
    (s : State) (creating : Bool) {t : State} → normalize_state s creating ≡ ok t → IsNormal t
unfolding normalize_state
normalize_state-IsNormal s true h =
    let (_, checks, result) = >>=-inverts (check_state (trim_state s)) _ h in
    subst IsNormal (ok-injective result) (IsNormal-fill_defaults s checks)
normalize_state-IsNormal s false h =
    let (_, checks, result) = >>=-inverts (check_state (trim_state s)) _ h in
    subst IsNormal (ok-injective result) (IsNormal-trim_state s checks)

-- A normal state is rehydrated as it is.
pub rehydrate_of_IsNormal : (t : State) → IsNormal t → rehydrate t ≡ ok t
unfolding rehydrate normalize_state
rehydrate_of_IsNormal t n =
    subst (λ x. (check_state x >> ok x) ≡ ok t) (sym n.trimmed) (rw (n.checked))

-- A state that `New` or `Rehydrate` returned is one that `Rehydrate` accepts and returns unchanged.
pub rehydrate-normalize :
    (s : State) (creating : Bool) {t : State}
    → normalize_state s creating ≡ ok t
    → rehydrate t ≡ ok t
rehydrate-normalize s creating {t} h =
    rehydrate_of_IsNormal t (normalize_state-IsNormal s creating h)
