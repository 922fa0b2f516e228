-- ===== src/Access/Decision.antt =====
-- Which principals may access a property, and that the middleware lets just them pass.
use stds_backend_go.Prelude.{
  ◌≡◌, refl, ◌≢◌, ◌⊎◌, inl, inr, ◌↔◌, true, false, Bool-cases, String, some, ◌==◌, if◌then◌else◌,
  Result, ok, err, eq_iff, ap, ok-injective,
}
use stds_backend_go.Prelude.Text.{eq_of_eqb, not_both}
use stds_backend_go.Prelude.Sets.{has}
use stds_backend_go.Access.Defs.{
  GoError, Principal, role_admin, role_owner, pass, check_property, owner_access, unassigned,
  require_property_access,
}

-- The rule: an administrator may access every property, an owner those that the database names him
-- the owner of, and anyone else those that are assigned to him.
pub data MayAccess (find_owner : String → Result GoError String) (p : Principal)
    (property_id : String) : Type 0 where
  as_admin : p.role ≡ role_admin → MayAccess find_owner p property_id
  as_owner :
      p.role ≡ role_owner
      → find_owner property_id ≡ ok p.user_id
      → MayAccess find_owner p property_id
  as_assigned :
      p.role ≢ role_admin
      → p.role ≢ role_owner
      → has p.assigned_property_ids property_id ≡ true
      → MayAccess find_owner p property_id

owner_access-passes :
    (p : Principal) (property_id : String) (r : Result GoError String)
    → ((owner_access p property_id r).decision ≡ pass) ↔ (r ≡ ok p.user_id)
unfolding owner_access
owner_access-passes p property_id (err e) = ((λ h. cc h), λ h. cc h)
owner_access-passes p property_id (ok owner_id) = elim (Bool-cases (owner_id == p.user_id)) [
  | inl same ↦ rw same ((λ _. ap ok (eq_of_eqb same)), λ _. refl)
  | inr other ↦
      rw other ((λ h. cc h), λ h. cc (other, (eq_iff owner_id p.user_id).1 (ok-injective h)))
]

unassigned-stops :
    (property_id : String) (r : Result GoError String) → (unassigned property_id r).decision ≢ pass
unfolding unassigned
unassigned-stops property_id (err e) h = cc h
unassigned-stops property_id (ok owner_id) h = cc h

pub role_cases :
    (role : String)
    → (role ≡ role_admin) ⊎ ((role ≡ role_owner) ⊎ ((role ≢ role_admin) × (role ≢ role_owner)))
role_cases role = elim (Bool-cases (role == role_admin)) [
  | inl admin ↦ inl (eq_of_eqb admin)
  | inr a ↦ elim (Bool-cases (role == role_owner)) [
    | inl owner ↦ inr (inl (eq_of_eqb owner))
    | inr o ↦ inr (
        inr
          ((λ e. cc (a, (eq_iff role role_admin).1 e)), λ e. cc (o, (eq_iff role role_owner).1 e)))
  ]
]

-- A text that does not equal a literal fails the test for it.
pub eqb_of_ne : {a b : String} → a ≢ b → (a == b) ≡ false
eqb_of_ne {a} {b} ne = elim (Bool-cases (a == b)) [ inl e ↦ absurd (ne (eq_of_eqb e)) | inr e ↦ e ]

pub admin_not_owner : {role : String} → role ≡ role_admin → role ≢ role_owner
admin_not_owner e = not_both role_admin role_owner refl e

module _ (find_owner : String → Result GoError String) (p : Principal) where
  -- What the rule says for one kind of principal.
  pub rule_owner :
      (property_id : String)
      → p.role ≡ role_owner
      → MayAccess find_owner p property_id ↔ (find_owner property_id ≡ ok p.user_id)
  rule_owner property_id o = (there, λ h. as_owner o h)
    where
      there : MayAccess find_owner p property_id → find_owner property_id ≡ ok p.user_id
      there (as_admin a) = absurd (admin_not_owner a o)
      there (as_owner _ h) = h
      there (as_assigned _ not_owner h) = absurd (not_owner o)

  pub rule_other :
      (property_id : String)
      → p.role ≢ role_admin
      → p.role ≢ role_owner
      → MayAccess find_owner p property_id ↔ (has p.assigned_property_ids property_id ≡ true)
  rule_other property_id na not_owner = (there, λ h. as_assigned na not_owner h)
    where
      there : MayAccess find_owner p property_id → has p.assigned_property_ids property_id ≡ true
      there (as_admin a) = absurd (na a)
      there (as_owner o h) = absurd (not_owner o)
      there (as_assigned _ _ h) = h

  other_passes :
      (property_id : String) (r : Result GoError String)
      → ((if has p.assigned_property_ids property_id
            then record { property_id = some property_id; decision = pass }
            else unassigned property_id r).decision
          ≡ pass)
        ↔ (has p.assigned_property_ids property_id ≡ true)
  other_passes property_id r = elim (Bool-cases (has p.assigned_property_ids property_id)) [
    | inl found ↦ rw found ((λ _. refl), λ _. refl)
    | inr missing ↦ rw missing ((λ h. absurd (unassigned-stops property_id r h)), λ h. cc h)
  ]

  -- A principal passes for a property that is not the empty text exactly if the rule allows it.
  pub property_access_iff :
      (property_id : String)
      → property_id ≢ ""
      → ((require_property_access find_owner (some p) (ok property_id)).decision ≡ pass)
        ↔ MayAccess find_owner p property_id
  unfolding require_property_access check_property
  property_access_iff property_id given = elim (role_cases p.role) [
    | inl a ↦ rw (eqb_of_ne given, (eq_iff p.role role_admin).1 a) ((λ _. as_admin a), λ _. refl)
    | inr (inl o) ↦
        let (there, back) = owner_access-passes p property_id (find_owner property_id) in
        let (rule, allowed) = rule_owner property_id o in
        rw (eqb_of_ne given, eqb_of_ne (λ a. admin_not_owner a o), (eq_iff p.role role_owner).1 o)
          ((λ h. allowed (there h)), λ m. back (rule m))
    | inr (inr (na, not_owner)) ↦
        let (there, back) = other_passes property_id (find_owner property_id) in
        let (rule, allowed) = rule_other property_id na not_owner in
        rw (eqb_of_ne given, eqb_of_ne na, eqb_of_ne not_owner)
          ((λ h. allowed (there h)), λ m. back (rule m))
  ]
