-- ===== src/Property/Deletable.antt =====
-- A property is deleted only when no room of it is occupied.
use stds_backend_go.Prelude.{
  ◌≡◌, refl, ◌↔◌, inl, inr, Bool-cases, String, List, [], ◌∷◌, none, ◌==◌, All, eq_iff,
}
use stds_backend_go.Prelude.Text.{trim_space, eq_of_eqb}
use stds_backend_go.Property.Defs.{trimmed_ids, occupied_error, ensure_deletable}

IsBlank : String → Type 0
IsBlank room_id = trim_space room_id ≡ ""

blank_ids : (ids : List String) → All IsBlank ids → trimmed_ids ids ≡ []
unfolding IsBlank trimmed_ids
blank_ids [] h = refl
blank_ids (room_id ∷ ids) (blank, rest) =
    rw ((eq_iff (trim_space room_id) "").1 blank) (blank_ids ids rest)

no_ids : (ids : List String) → trimmed_ids ids ≡ [] → All IsBlank ids
unfolding IsBlank trimmed_ids
no_ids [] h = tt
no_ids (room_id ∷ ids) h = elim (Bool-cases (trim_space room_id == "")) [
  | inl blank ↦ (eq_of_eqb blank, no_ids ids (rw blank at h))
  | inr full ↦ cc (rw full at h)
]

occupied_error_lem : (ids : List String) → (occupied_error ids ≡ none) ↔ (ids ≡ [])
occupied_error_lem [] = ((λ _. refl), λ _. refl)
occupied_error_lem (room_id ∷ ids) = ((λ e. cc e), λ e. cc e)

-- `EnsureDeletable` allows the deletion exactly if every id of an occupied room that it is given is
-- blank.
pub ensure_deletable_iff :
    (ids : List String)
    → (ensure_deletable ids ≡ none) ↔ All (λ room_id. trim_space room_id ≡ "") ids
unfolding ensure_deletable IsBlank
ensure_deletable_iff ids =
    let (there, back) = occupied_error_lem (trimmed_ids ids) in
    ((λ e. no_ids ids (there e)), λ h. back (blank_ids ids h))
