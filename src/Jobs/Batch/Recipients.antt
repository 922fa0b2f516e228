-- ===== src/Jobs/Batch/Recipients.antt =====
-- Who is told about a lease.
use stds_backend_go.Prelude.{
  ◌≡◌, refl, ℕ, suc, Bool, false, not, ◌&&◌, ◌||◌, Bool-cases, inl, inr, String, List, [], ◌∷◌,
  arith, ◌==◌, if◌then◌else◌, eq_iff,
}
use stds_backend_go.Prelude.Text.{trim_space, eq_of_eqb}
use stds_backend_go.Prelude.Sets.{has}
use stds_backend_go.Jobs.Batch.Defs.{NotificationRecipient}
use stds_backend_go.Jobs.Batch.Notices.{filter_from, filter_recipients}

-- How often the address x is in the list.
unfoldable pub times : String → List NotificationRecipient → ℕ
times x [] = 0
times x (r ∷ rs) = if r.email == x then suc (times x rs) else times x rs

-- Is x, up to spaces around it, the address of one of the list?
unfoldable pub asked_for : String → List NotificationRecipient → Bool
asked_for x [] = false
asked_for x (r ∷ rs) = trim_space r.email == x || asked_for x rs

filter_from-times :
    (x : String) (seen : List String) (rs : List NotificationRecipient)
    → times x (filter_from seen rs)
      ≡ (if not (x == "") && (not (has seen x) && asked_for x rs) then 1 else 0)
unfolding filter_from times asked_for has
filter_from-times x seen [] = ground arith
filter_from-times x seen (r ∷ rs) = elim (Bool-cases (trim_space r.email == x)) [
  | inl same ↦ rw (eq_of_eqb same) (
      ground (
        arith,
        (eq_iff x x).1 refl,
        filter_from-times x seen rs,
        filter_from-times x (x ∷ seen) rs,
      ))
  | inr other ↦ ground (
    arith,
    other,
    filter_from-times x seen rs,
    filter_from-times x (trim_space r.email ∷ seen) rs,
  )
]

-- An address that is asked for, up to spaces around it, and not blank is told exactly once, and no
-- other address is told.
pub filter_recipients-times :
    (x : String) (rs : List NotificationRecipient)
    → times x (filter_recipients rs) ≡ (if not (x == "") && asked_for x rs then 1 else 0)
unfolding filter_recipients has
filter_recipients-times x rs = filter_from-times x [] rs
