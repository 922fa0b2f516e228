-- ===== src/Property/Room/Defs.antt =====
-- The room rules of the property aggregate.
use stds_backend_go.Prelude.{
  Bool, true, false, ◌&&◌, ◌||◌, String, Option, none, some, ◌==◌, if◌then◌else◌, Result, ok, err,
  Method, ◌▸◌, run_then,
}
use stds_backend_go.Prelude.Int.{ℤ}
use stds_backend_go.Prelude.Text.{trim_space, trim_optional}
use stds_backend_go.Prelude.Patch.{patch, patch_text}
use stds_backend_go.Property.Defs.{
  PropertyError, room_name_required, room_is_occupied, room_is_in_maintenance, bad_room_status,
}

abbrev pub room_vacant : String
room_vacant = "vacant"

abbrev pub room_occupied : String
room_occupied = "occupied"

abbrev pub room_maintenance : String
room_maintenance = "maintenance"

-- `RoomState` over a type of floats and a type of JSON maps.
pub record RoomState (F J : Type 0) : Type 0 where
  pub id : String
  pub property_id : String
  pub name : String
  pub status : String
  pub size : Option F
  pub floor : Option String
  pub room_type : Option String
  pub facilities : Option J
  pub default_rent_amount : Option ℤ
  pub notes : Option String
  pub zone : Option String

pub record RoomUpdateInput (F J : Type 0) : Type 0 where
  pub name : Option String
  pub size : Option F
  pub clear_size : Bool
  pub floor : Option String
  pub clear_floor : Bool
  pub room_type : Option String
  pub clear_room_type : Bool
  pub facilities : Option J
  pub clear_facilities : Bool
  pub default_rent_amount : Option ℤ
  pub clear_default_rent : Bool
  pub notes : Option String
  pub clear_notes : Bool
  pub zone : Option String
  pub clear_zone : Bool

unfoldable pub is_room_status : String → Bool
is_room_status status =
    status == room_vacant || status == room_occupied || status == room_maintenance

module _ {F J : Type 0} where
  unfoldable pub normalize_room_state : RoomState F J → Bool → Result PropertyError (RoomState F J)
  normalize_room_state state require_status =
      let name = trim_space state.name in
      let given = trim_space state.status in
      let status = if require_status && given == "" then room_vacant else given in
      if name == ""
      then err room_name_required
      else if status == ""
      then err bad_room_status
      else if is_room_status status
      then ok (record state {
        id = trim_space state.id;
        property_id = trim_space state.property_id;
        name = name;
        status = status;
        floor = trim_optional state.floor;
        room_type = trim_optional state.room_type;
        notes = trim_optional state.notes;
        zone = trim_optional state.zone;
      })
      else err bad_room_status

  unfoldable pub new_room : RoomState F J → Result PropertyError (RoomState F J)
  new_room state = normalize_room_state state true

  unfoldable pub rehydrate_room : RoomState F J → Result PropertyError (RoomState F J)
  rehydrate_room state = normalize_room_state state false

  unfoldable pub update_room_name : Option String → Method (RoomState F J) PropertyError
  update_room_name none a = (a, none)
  update_room_name (some input) a =
      let name = trim_space input in
      if name == "" then (a, some room_name_required) else (record a { name = name }, none)

  -- The fields of `UpdateRoom` after the name.
  abbrev pub update_room_fields : RoomUpdateInput F J → Method (RoomState F J) PropertyError
  update_room_fields input a = (
    record a {
      size = patch input.size input.clear_size a.size;
      floor = patch_text input.floor input.clear_floor a.floor;
      room_type = patch_text input.room_type input.clear_room_type a.room_type;
      facilities = patch input.facilities input.clear_facilities a.facilities;
      default_rent_amount =
          patch input.default_rent_amount input.clear_default_rent a.default_rent_amount;
      notes = patch_text input.notes input.clear_notes a.notes;
      zone = patch_text input.zone input.clear_zone a.zone;
    },
    none,
  )

  unfoldable pub update_room : RoomUpdateInput F J → Method (RoomState F J) PropertyError
  update_room input = update_room_name input.name ▸ update_room_fields input

  unfoldable pub ensure_room_deletable : RoomState F J → Option PropertyError
  ensure_room_deletable a =
      if a.status == room_occupied
      then some room_is_occupied
      else if a.status == room_maintenance
      then some room_is_in_maintenance
      else none

  unfoldable pub ensure_can_enter_maintenance : RoomState F J → Option PropertyError
  ensure_can_enter_maintenance a =
      if a.status == room_occupied
      then some room_is_occupied
      else if a.status == room_maintenance
      then some room_is_in_maintenance
      else none

  unfoldable pub to_maintenance : Method (RoomState F J) PropertyError
  to_maintenance a = (record a { status = room_maintenance }, none)

  unfoldable pub enter_maintenance : Method (RoomState F J) PropertyError
  enter_maintenance a = run_then (a, ensure_can_enter_maintenance a) to_maintenance
