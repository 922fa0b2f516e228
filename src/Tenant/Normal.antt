-- ===== src/Tenant/Normal.antt =====
-- What `New` and `Rehydrate` accept is a fixed point of normalization.
use stds_backend_go.Prelude.{
  ◌≡◌, refl, Bool, true, false, Bool-cases, inl, inr, String, List, [], ◌∷◌, Option, none, some,
  arith, ◌==◌, ok, >>=-inverts, ap,
}
use stds_backend_go.Prelude.Text.{
  trim_space, trim_space_idem, trim_optional, trim_optional_idem, eq_other,
}
use stds_backend_go.Tenant.Defs.{
  Texts, State, TenantError, clone_all, clone_contacts, validate_name, normalize_email, check_name,
  is_tenant_status, finish_state, normalize_state, rehydrate, status_active, status_inactive,
}

clone_all_idem :
    {J : Type 0} (empty : J) (contacts : List (Option J))
    → clone_all empty (clone_all empty contacts) ≡ clone_all empty contacts
unfolding clone_all
clone_all_idem empty [] = refl
clone_all_idem empty (none ∷ contacts) = ap (λ l. some empty ∷ l) (clone_all_idem empty contacts)
clone_all_idem empty (some contact ∷ contacts) =
    ap (λ l. some contact ∷ l) (clone_all_idem empty contacts)

pub clone_contacts_idem :
    {J : Type 0} (empty : J) (contacts : Option (List (Option J)))
    → clone_contacts empty (clone_contacts empty contacts) ≡ clone_contacts empty contacts
unfolding clone_contacts clone_all
clone_contacts_idem empty none = refl
clone_contacts_idem empty (some contacts) = ap some (clone_all_idem empty contacts)

pub normalize_email_idem :
    (texts : Texts) (email : Option String) (required : Bool) {e : Option String}
    → normalize_email texts email required ≡ ok e
    → normalize_email texts e false ≡ ok e
unfolding normalize_email
normalize_email_idem texts none required h = ground arith
normalize_email_idem texts (some email) required h = ground (arith, trim_space_idem email)

trim_active : trim_space status_active ≡ status_active
unfolding trim_space
trim_active = refl

status_not_blank : (status : String) → is_tenant_status status ≡ true → (status == "") ≡ false
unfolding is_tenant_status
status_not_blank status h = elim (Bool-cases (status == "")) [
  | inl e ↦
      ground
        (arith, eq_other status "" status_active refl e, eq_other status "" status_inactive refl e)
  | inr e ↦ e
]

module _ {J : Type 0} (texts : Texts) (empty : J) where
  pub record IsNormal (s : State J) : Type 0 where
    pub name : trim_space s.name ≡ s.name
    pub name_valid : validate_name s.name ≡ none
    pub email : normalize_email texts s.email false ≡ ok s.email
    pub phone : trim_optional s.phone ≡ s.phone
    pub contacts : clone_contacts empty s.contacts ≡ s.contacts
    pub national_id : trim_optional s.national_id ≡ s.national_id
    pub address : trim_optional s.address ≡ s.address
    pub occupation : trim_optional s.occupation ≡ s.occupation
    pub status : trim_space s.status ≡ s.status
    pub status_valid : is_tenant_status s.status ≡ true

  module _ (s : State J) (email : Option String) (v : validate_name (trim_space s.name) ≡ none)
      (e : normalize_email texts email false ≡ ok email) {t : State J}
      (h : finish_state texts empty s email ≡ ok t) where
    finished_name :
        (trim_space t.name ≡ t.name)
        × (validate_name t.name ≡ none)
        × (normalize_email texts t.email false ≡ ok t.email)
        × (clone_contacts empty t.contacts ≡ t.contacts)
    unfolding finish_state
    finished_name =
        ground (arith, trim_space_idem s.name, v, e, clone_contacts_idem empty s.contacts)

    finished_texts :
        (trim_optional t.phone ≡ t.phone)
        × (trim_optional t.national_id ≡ t.national_id)
        × (trim_optional t.address ≡ t.address)
        × (trim_optional t.occupation ≡ t.occupation)
    unfolding finish_state
    finished_texts = ground (
      arith,
      trim_optional_idem s.phone,
      trim_optional_idem s.national_id,
      trim_optional_idem s.address,
      trim_optional_idem s.occupation,
    )

    finished_status : (trim_space t.status ≡ t.status) × (is_tenant_status t.status ≡ true)
    unfolding finish_state
    finished_status = ground (arith, trim_space_idem s.status, trim_active)

    finished : IsNormal t
    finished =
        let (name, name_valid, mail, contacts) = finished_name in
        let (phone, national_id, address, occupation) = finished_texts in
        let (status, status_valid) = finished_status in
        record {
          name = name;
          name_valid = name_valid;
          email = mail;
          phone = phone;
          contacts = contacts;
          national_id = national_id;
          address = address;
          occupation = occupation;
          status = status;
          status_valid = status_valid;
        }

  check_name_ok : (o : Option TenantError) → check_name o ≡ ok tt → o ≡ none
  check_name_ok none h = refl
  check_name_ok (some e) h = cc h

  pub normalize_state-IsNormal :
      (s : State J) (required : Bool) {t : State J}
      → normalize_state texts empty s required ≡ ok t
      → IsNormal t
  unfolding normalize_state
  normalize_state-IsNormal s required h =
      let (unit, checked, rest) =
        >>=-inverts (check_name (validate_name (trim_space s.name))) _ h in
      let (email, found, last) = >>=-inverts (normalize_email texts s.email required) _ rest in
      finished s email (check_name_ok _ checked) (normalize_email_idem texts s.email required found)
        last

  pub rehydrate_normal : (t : State J) → IsNormal t → rehydrate texts empty t ≡ ok t
  unfolding rehydrate normalize_state finish_state
  rehydrate_normal t n =
      rw
        (
          n.name,
          n.name_valid,
          n.email,
          n.status,
          status_not_blank t.status n.status_valid,
          n.status_valid,
        )
        (λ i. ok (record t {
          phone = n.phone i;
          contacts = n.contacts i;
          national_id = n.national_id i;
          address = n.address i;
          occupation = n.occupation i;
        }))
