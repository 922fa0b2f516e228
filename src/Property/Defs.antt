-- ===== src/Property/Defs.antt =====
-- The property aggregate. `float64` and `map[string]interface{}` are parameters; a map is carried and
-- copied, and a copy of a value is that value. A method is called on an aggregate that is not nil.
use stds_backend_go.Prelude.{
  Bool, true, false, not, ◌||◌, String, List, [], ◌∷◌, Option, none, some, ◌==◌, if◌then◌else◌,
  Result, ok, err, Method, ◌▸◌,
}
use stds_backend_go.Prelude.Int.{ℤ}
use stds_backend_go.Prelude.Text.{trim_space, trim_optional}
use stds_backend_go.Prelude.Patch.{patch, patch_text}
use stds_backend_go.Periods.Defs.{cadence_monthly, cadence_bimonthly}
use stds_backend_go.Prelude.Floats.{Floats}

pub record State (F J : Type 0) : Type 0 where
  pub id : String
  pub name : String
  pub property_public_name : String
  pub subtitle : Option String
  pub address : String
  pub electricity_unit_price : Option F
  pub default_electricity_billing_cadence : String
  pub owner_id : String
  pub contact_phone : Option String
  pub contact_email : Option String
  pub notes : Option String
  pub facilities : Option J
  pub version : ℤ

pub record UpdateInput (F J : Type 0) : Type 0 where
  pub actor_role : String
  pub name : Option String
  pub property_public_name : Option String
  pub subtitle : Option String
  pub clear_subtitle : Bool
  pub address : Option String
  pub electricity_unit_price : Option F
  pub default_electricity_billing_cadence : Option String
  pub contact_phone : Option String
  pub clear_contact_phone : Bool
  pub contact_email : Option String
  pub clear_contact_email : Bool
  pub notes : Option String
  pub clear_notes : Bool
  pub facilities : Option J
  pub clear_facilities : Bool

pub data PropertyError : Type 0 where
  name_required property_public_name_required address_required owner_id_required : PropertyError
  electricity_price_must_be_positive invalid_billing_cadence : PropertyError
  forbidden_electricity_price_update room_name_required room_is_occupied : PropertyError
  room_is_in_maintenance bad_room_status : PropertyError
  occupied_rooms : List String → PropertyError

unfoldable pub is_valid_billing_cadence : String → Bool
is_valid_billing_cadence cadence = cadence == cadence_monthly || cadence == cadence_bimonthly

module _ (f : Floats) (J : Type 0) where
  -- Is the price an error? A missing one is if it is required, any other if it is not positive.
  abbrev pub bad_price : Bool → Option f.Float64 → Bool
  bad_price required none = required
  bad_price required (some price) = f.le_zero price

  unfoldable pub normalize_state :
      State f.Float64 J → Bool → Result PropertyError (State f.Float64 J)
  normalize_state state require_electricity_price =
      let name = trim_space state.name in
      let public_name = trim_space state.property_public_name in
      let address = trim_space state.address in
      let cadence = trim_space state.default_electricity_billing_cadence in
      let owner_id = trim_space state.owner_id in
      if name == ""
      then err name_required
      else if address == ""
      then err address_required
      else if bad_price require_electricity_price state.electricity_unit_price
      then err electricity_price_must_be_positive
      else if not (is_valid_billing_cadence cadence)
      then err invalid_billing_cadence
      else if owner_id == ""
      then err owner_id_required
      else ok (record state {
        name = name;
        property_public_name = if public_name == "" then name else public_name;
        subtitle = trim_optional state.subtitle;
        address = address;
        default_electricity_billing_cadence = cadence;
        owner_id = owner_id;
        contact_phone = trim_optional state.contact_phone;
        contact_email = trim_optional state.contact_email;
        notes = trim_optional state.notes;
      })

  unfoldable pub new : State f.Float64 J → Result PropertyError (State f.Float64 J)
  new state = normalize_state state true

  unfoldable pub rehydrate : State f.Float64 J → Result PropertyError (State f.Float64 J)
  rehydrate state = normalize_state state false

  unfoldable pub update_name : Option String → Method (State f.Float64 J) PropertyError
  update_name none a = (a, none)
  update_name (some input) a =
      let name = trim_space input in
      if name == "" then (a, some name_required) else (record a { name = name }, none)

  unfoldable pub update_public_name : Option String → Method (State f.Float64 J) PropertyError
  update_public_name none a = (a, none)
  update_public_name (some input) a =
      let public_name = trim_space input in
      if public_name == ""
      then (a, some property_public_name_required)
      else (record a { property_public_name = public_name }, none)

  unfoldable pub update_address : Option String → Method (State f.Float64 J) PropertyError
  update_address none a = (a, none)
  update_address (some input) a =
      let address = trim_space input in
      if address == "" then (a, some address_required) else (record a { address = address }, none)

  unfoldable pub update_price : String → Option f.Float64 → Method (State f.Float64 J) PropertyError
  update_price actor_role none a = (a, none)
  update_price actor_role (some price) a =
      if trim_space actor_role == "staff"
      then (a, some forbidden_electricity_price_update)
      else if f.le_zero price
      then (a, some electricity_price_must_be_positive)
      else (record a { electricity_unit_price = some price }, none)

  unfoldable pub update_cadence : Option String → Method (State f.Float64 J) PropertyError
  update_cadence none a = (a, none)
  update_cadence (some input) a =
      let cadence = trim_space input in
      if not (is_valid_billing_cadence cadence)
      then (a, some invalid_billing_cadence)
      else (record a { default_electricity_billing_cadence = cadence }, none)

  abbrev pub update_subtitle : UpdateInput f.Float64 J → Method (State f.Float64 J) PropertyError
  update_subtitle input a =
      (record a { subtitle = patch_text input.subtitle input.clear_subtitle a.subtitle }, none)

  -- The optional fields at the end of `Update`.
  abbrev pub update_optional : UpdateInput f.Float64 J → Method (State f.Float64 J) PropertyError
  update_optional input a = (
    record a {
      contact_phone = patch_text input.contact_phone input.clear_contact_phone a.contact_phone;
      contact_email = patch_text input.contact_email input.clear_contact_email a.contact_email;
      notes = patch_text input.notes input.clear_notes a.notes;
      facilities = patch input.facilities input.clear_facilities a.facilities;
    },
    none,
  )

  unfoldable pub update : UpdateInput f.Float64 J → Method (State f.Float64 J) PropertyError
  update input =
      update_name input.name
      ▸ update_public_name input.property_public_name
      ▸ update_subtitle input
      ▸ update_address input.address
      ▸ update_price input.actor_role input.electricity_unit_price
      ▸ update_cadence input.default_electricity_billing_cadence
      ▸ update_optional input

-- The ids that are left when those that are blank are dropped.
unfoldable pub trimmed_ids : List String → List String
trimmed_ids [] = []
trimmed_ids (room_id ∷ ids) =
    let rest = trimmed_ids ids in
    let trimmed = trim_space room_id in if trimmed == "" then rest else trimmed ∷ rest

abbrev pub occupied_error : List String → Option PropertyError
occupied_error [] = none
occupied_error (room_id ∷ ids) = some (occupied_rooms (room_id ∷ ids))

unfoldable pub ensure_deletable : List String → Option PropertyError
unfolding trimmed_ids
ensure_deletable occupied_room_ids = occupied_error (trimmed_ids occupied_room_ids)
