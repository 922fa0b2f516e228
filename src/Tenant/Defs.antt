-- ===== src/Tenant/Defs.antt =====
-- The tenant aggregate. The test `isValidEmail` calls net/mail and is a parameter. The type of the JSON maps of the contacts is a parameter too, and a deep copy of a
-- contact is the contact, but a nil one becomes an empty map.
use stds_backend_go.Prelude.{
  Bool, true, false, ◌||◌, String, List, [], ◌∷◌, Option, none, some, ltb, ◌==◌, if◌then◌else◌,
  Result, ok, err, ◌>>=◌, ◌>>◌, Method, ◌▸◌,
}
use stds_backend_go.Prelude.Int.{ℤ}
use stds_backend_go.Prelude.Text.{trim_space, trim_optional, rune_count}
use stds_backend_go.Prelude.Patch.{patch, patch_text}
use stds_backend_go.GoTime.{Time}

abbrev pub status_active : String
status_active = "active"

abbrev pub status_inactive : String
status_inactive = "inactive"

-- What the aggregate takes of net/mail.
pub record Texts : Type 0 where
  pub is_valid_email : String → Bool

-- A contact is a map or nil; `none` for the list is nil.
pub record State (J : Type 0) : Type 0 where
  pub id : String
  pub name : String
  pub email : Option String
  pub phone : Option String
  pub contacts : Option (List (Option J))
  pub birth_date : Option Time
  pub national_id : Option String
  pub address : Option String
  pub occupation : Option String
  pub status : String
  pub version : ℤ

pub record UpdateInput (J : Type 0) : Type 0 where
  pub name : Option String
  pub email : Option String
  pub phone : Option String
  pub contacts : Option (Option (List (Option J)))
  pub birth_date : Option Time
  pub clear_birth_date : Bool
  pub national_id : Option String
  pub clear_national_id : Bool
  pub address : Option String
  pub clear_address : Bool
  pub occupation : Option String
  pub clear_occupation : Bool

pub data TenantError : Type 0 where
  name_required name_too_long bad_tenant_status email_required email_invalid : TenantError

unfoldable pub clone_all : {J : Type 0} → J → List (Option J) → List (Option J)
clone_all empty [] = []
clone_all empty (none ∷ contacts) = some empty ∷ clone_all empty contacts
clone_all empty (some contact ∷ contacts) = some contact ∷ clone_all empty contacts

unfoldable pub clone_contacts :
    {J : Type 0} → J → Option (List (Option J)) → Option (List (Option J))
clone_contacts empty none = some []
clone_contacts empty (some contacts) = some (clone_all empty contacts)

-- `validateName`: the error, or none.
unfoldable pub validate_name : String → Option TenantError
validate_name name =
    if name == ""
    then some name_required
    else if ltb 100 (rune_count name)
    then some name_too_long
    else none

unfoldable pub normalize_email : Texts → Option String → Bool → Result TenantError (Option String)
normalize_email texts none required = if required then err email_required else ok none
normalize_email texts (some email) required =
    let value = trim_space email in
    if value == ""
    then (if required then err email_required else err email_invalid)
    else if texts.is_valid_email value
    then ok (some value)
    else err email_invalid

abbrev pub check_name : Option TenantError → Result TenantError (Unit {0})
check_name none = ok tt
check_name (some e) = err e

unfoldable pub is_tenant_status : String → Bool
is_tenant_status status = status == status_active || status == status_inactive

module _ {J : Type 0} (texts : Texts) (empty : J) where
  -- The assignments of `normalizeState` after the e-mail, and its test of the status.
  unfoldable pub finish_state : State J → Option String → Result TenantError (State J)
  finish_state state email =
      let given = trim_space state.status in
      let status = if given == "" then status_active else given in
      if is_tenant_status status
      then ok (record state {
        name = trim_space state.name;
        status = status;
        email = email;
        phone = trim_optional state.phone;
        contacts = clone_contacts empty state.contacts;
        national_id = trim_optional state.national_id;
        address = trim_optional state.address;
        occupation = trim_optional state.occupation;
      })
      else err bad_tenant_status

  unfoldable pub normalize_state : State J → Bool → Result TenantError (State J)
  normalize_state state require_email = do
    check_name (validate_name (trim_space state.name))
    email ← normalize_email texts state.email require_email
    finish_state state email

  unfoldable pub new : State J → Result TenantError (State J)
  new state = normalize_state state true

  unfoldable pub rehydrate : State J → Result TenantError (State J)
  rehydrate state = normalize_state state false

  abbrev pub write_name : String → Option TenantError → Method (State J) TenantError
  write_name name none a = (record a { name = name }, none)
  write_name name (some e) a = (a, some e)

  unfoldable pub update_name : Option String → Method (State J) TenantError
  update_name none a = (a, none)
  update_name (some input) a = let name = trim_space input in write_name name (validate_name name) a

  abbrev pub write_email : Result TenantError (Option String) → Method (State J) TenantError
  write_email (ok email) a = (record a { email = email }, none)
  write_email (err e) a = (a, some e)

  unfoldable pub update_email : Option String → Method (State J) TenantError
  update_email none a = (a, none)
  update_email (some input) a = write_email (normalize_email texts (some input) true) a

  abbrev pub patch_contacts :
      Option (Option (List (Option J))) → Option (List (Option J)) → Option (List (Option J))
  patch_contacts none old = old
  patch_contacts (some contacts) old = clone_contacts empty contacts

  -- The fields of `Update` after the e-mail.
  abbrev pub update_fields : UpdateInput J → Method (State J) TenantError
  update_fields input a = (
    record a {
      phone = patch_text input.phone false a.phone;
      contacts = patch_contacts input.contacts a.contacts;
      birth_date = patch input.birth_date input.clear_birth_date a.birth_date;
      national_id = patch_text input.national_id input.clear_national_id a.national_id;
      address = patch_text input.address input.clear_address a.address;
      occupation = patch_text input.occupation input.clear_occupation a.occupation;
    },
    none,
  )

  unfoldable pub update : UpdateInput J → Method (State J) TenantError
  update input = update_name input.name ▸ update_email input.email ▸ update_fields input
