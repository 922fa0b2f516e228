-- ===== src/Access/AnyOf.antt =====
-- Access to one of several properties.
use stds_backend_go.Prelude.{
  ◌≡◌, refl, ◌≢◌, ◌⊎◌, inl, inr, ◌↔◌, true, false, Bool-cases, String, List, [], ◌∷◌, some, arith,
  ◌==◌, Result, ok, err, All, eq_iff, sym, ◌∙◌, ap, ok-injective, subst,
}
use stds_backend_go.Prelude.Text.{eq_of_eqb}
use stds_backend_go.Prelude.Sets.{has}
use stds_backend_go.Access.Defs.{
  GoError, not_found, Principal, role_admin, role_owner, pass, owner_round, any_owned, any_assigned,
  check_any, require_any_property_access,
}
use stds_backend_go.Access.Decision.{
  MayAccess, role_cases, eqb_of_ne, admin_not_owner, rule_owner, rule_other,
}

-- Some text of the list has the property.
pub Some : (String → Type 0) → List String → Type 0
Some P ids = (id : String) × (has ids id ≡ true) × P id

has_head : (x : String) (xs : List String) → has (x ∷ xs) x ≡ true
unfolding has
has_head x xs = rw ((eq_iff x x).1 refl) refl

has_later : (x y : String) (xs : List String) → has xs y ≡ true → has (x ∷ xs) y ≡ true
unfolding has
has_later x y xs h = ground (arith, h)

module _ (P : String → Type 0) (x : String) (xs : List String) where
  Some-head : P x → Some P (x ∷ xs)
  unfolding Some
  Some-head h = (x, has_head x xs, h)

  Some-later : Some P xs → Some P (x ∷ xs)
  unfolding Some
  Some-later (y, within, h) = (y, has_later x y xs within, h)

  Some-uncons : Some P (x ∷ xs) → P x ⊎ Some P xs
  unfolding Some has
  Some-uncons (y, within, h) = elim (Bool-cases (x == y)) [
    | inl same ↦ inl (subst P (sym (eq_of_eqb same)) h)
    | inr other ↦ inr (y, (rw other at within), h)
  ]

Some-empty : (P : String → Type 0) → ¬ Some P []
unfolding Some has
Some-empty P (y, within, h) = cc within

-- A lookup that found an owner or no property.
unfoldable pub Answered : Result GoError String → Type 0
Answered r = (r ≡ err not_found) ⊎ ((owner_id : String) × (r ≡ ok owner_id))

module _ (find_owner : String → Result GoError String) (p : Principal) where
  Owned : String → Type 0
  Owned id = find_owner id ≡ ok p.user_id

  Assigned : String → Type 0
  Assigned id = has p.assigned_property_ids id ≡ true

  Assigned-iff : (ids : List String) → ((any_assigned p ids).decision ≡ pass) ↔ Some Assigned ids
  unfolding any_assigned Assigned
  Assigned-iff [] = ((λ h. cc h), λ h. absurd (Some-empty Assigned h))
  Assigned-iff (id ∷ ids) = elim (Bool-cases (has p.assigned_property_ids id)) [
    | inl found ↦ rw found ((λ _. Some-head Assigned id ids found), λ _. refl)
    | inr missing ↦
        let (there, back) = Assigned-iff ids in
        rw missing (
          (λ h. Some-later Assigned id ids (there h)),
          λ h. back (skip missing (Some-uncons Assigned id ids h)),
        )
  ]
    where
      skip :
          has p.assigned_property_ids id ≡ false
          → Assigned id ⊎ Some Assigned ids
          → Some Assigned ids
      skip m (inl h) = cc (m, h)
      skip m (inr h) = h

  owner_skip :
      (id : String) (ids : List String)
      → find_owner id ≢ ok p.user_id
      → Owned id ⊎ Some Owned ids
      → Some Owned ids
  unfolding Owned
  owner_skip id ids other (inl h) = absurd (other h)
  owner_skip id ids other (inr h) = h

  Owned-iff :
      (ids : List String)
      → All (λ id. Answered (find_owner id)) ids
      → ((any_owned find_owner p ids).decision ≡ pass) ↔ Some Owned ids
  unfolding any_owned owner_round Owned Answered
  Owned-iff [] _ = ((λ h. cc h), λ h. absurd (Some-empty Owned h))
  Owned-iff (id ∷ ids) (inl missing, answered) =
      let (there, back) = Owned-iff ids answered in
      rw missing (
        (λ h. Some-later Owned id ids (there h)),
        λ h. back (owner_skip id ids (λ e. cc (missing, e)) (Some-uncons Owned id ids h)),
      )
  Owned-iff (id ∷ ids) (inr (owner_id, found), answered) =
      let (there, back) = Owned-iff ids answered in
      elim (Bool-cases (owner_id == p.user_id)) [
        | inl same ↦
            rw (found, same)
              ((λ _. Some-head Owned id ids (found ∙ ap ok (eq_of_eqb same))), λ _. refl)
        | inr other ↦
            rw (found, other)
              (
                (λ h. Some-later Owned id ids (there h)),
                λ h. back (
                    owner_skip id ids
                      (λ e.
                        cc (other, (eq_iff owner_id p.user_id).1 (ok-injective (sym found ∙ e))))
                      (Some-uncons Owned id ids h)),
              )
      ]

  Some-map :
      (P Q : String → Type 0) (ids : List String)
      → ((id : String) → P id → Q id)
      → Some P ids
      → Some Q ids
  unfolding Some
  Some-map P Q ids f (id, within, h) = (id, within, f id h)

  -- Where every lookup finds an owner or no property, a principal passes for a list of properties
  -- exactly if it is an administrator or may access one of the list.
  pub any_access_iff :
      (ids : List String)
      → All (λ id. Answered (find_owner id)) ids
      → ((require_any_property_access find_owner (some p) (ok ids)).decision ≡ pass)
        ↔ ((p.role ≡ role_admin) ⊎ Some (MayAccess find_owner p) ids)
  unfolding require_any_property_access check_any Owned Assigned
  any_access_iff ids answered = elim (role_cases p.role) [
    | inl a ↦ rw ((eq_iff p.role role_admin).1 a) ((λ _. inl a), λ _. refl)
    | inr (inl o) ↦
        let (there, back) = Owned-iff ids answered in
        rw (eqb_of_ne (λ a. admin_not_owner a o), (eq_iff p.role role_owner).1 o)
          (
            (λ h. inr (
                Some-map Owned (MayAccess find_owner p) ids (λ id. (rule_owner find_owner p id o).1)
                  (there h))),
            λ h. elim h [
              | inl a ↦ absurd (admin_not_owner a o)
              | inr may ↦ back (
                  Some-map (MayAccess find_owner p) Owned ids
                    (λ id. (rule_owner find_owner p id o).0) may)
            ],
          )
    | inr (inr (na, not_owner)) ↦
        let (there, back) = Assigned-iff ids in
        rw (eqb_of_ne na, eqb_of_ne not_owner)
          (
            (λ h. inr (
                Some-map Assigned (MayAccess find_owner p) ids
                  (λ id. (rule_other find_owner p id na not_owner).1) (there h))),
            λ h. elim h [
              | inl a ↦ absurd (na a)
              | inr may ↦ back (
                  Some-map (MayAccess find_owner p) Assigned ids
                    (λ id. (rule_other find_owner p id na not_owner).0) may)
            ],
          )
  ]
