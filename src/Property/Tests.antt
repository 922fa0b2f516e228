-- ===== src/Property/Tests.antt =====
-- A property and a room of it at concrete values.
use stds_backend_go.Prelude.{◌≡◌, refl, true, false, String, none, some, ok, ℕ}
use stds_backend_go.Prelude.Int.{pos}
use stds_backend_go.Prelude.Text.{trim_space, trim_optional, trim_to_optional}
use stds_backend_go.Prelude.Floats.{whole}
use stds_backend_go.Property.Defs.{
  State, UpdateInput, normalize_state, rehydrate, update, is_valid_billing_cadence,
}
use stds_backend_go.Property.Update.{rehydrate-update}
use stds_backend_go.Property.Room.Defs.{
  RoomState, RoomUpdateInput, is_room_status, normalize_room_state, rehydrate_room, update_room,
  room_vacant,
}
use stds_backend_go.Property.Room.Rules.{rehydrate-update_room}

abbrev house : State ℕ String
house = record {
  id = "p1";
  name = "house";
  property_public_name = "House";
  subtitle = none;
  address = "main street 1";
  electricity_unit_price = some 5;
  default_electricity_billing_cadence = "monthly";
  owner_id = "o1";
  contact_phone = none;
  contact_email = none;
  notes = none;
  facilities = some "{}";
  version = pos 1;
}

-- The new name is written before the blank address is refused.
abbrev change : UpdateInput ℕ String
change = record {
  actor_role = "staff";
  name = some " Villa ";
  property_public_name = none;
  subtitle = some "";
  clear_subtitle = false;
  address = some " ";
  electricity_unit_price = some 7;
  default_electricity_billing_cadence = none;
  contact_phone = none;
  clear_contact_phone = true;
  contact_email = none;
  clear_contact_email = false;
  notes = none;
  clear_notes = false;
  facilities = none;
  clear_facilities = true;
}

house_built : normalize_state whole String house true ≡ ok house
unfolding normalize_state is_valid_billing_cadence trim_space trim_optional
house_built = refl

rehydrate-update_example :
    rehydrate whole String (update whole String change house).0
    ≡ ok (update whole String change house).0
rehydrate-update_example = rehydrate-update whole String house true change house_built

abbrev room : RoomState ℕ String
room = record {
  id = "r1";
  property_id = "p1";
  name = "101";
  status = room_vacant;
  size = none;
  floor = some "1";
  room_type = none;
  facilities = none;
  default_rent_amount = some (pos 9000);
  notes = none;
  zone = none;
}

abbrev room_change : RoomUpdateInput ℕ String
room_change = record {
  name = some "102 ";
  size = some 20;
  clear_size = false;
  floor = none;
  clear_floor = true;
  room_type = some "suite";
  clear_room_type = false;
  facilities = none;
  clear_facilities = false;
  default_rent_amount = none;
  clear_default_rent = true;
  notes = none;
  clear_notes = false;
  zone = none;
  clear_zone = false;
}

room_built : normalize_room_state room false ≡ ok room
unfolding normalize_room_state is_room_status trim_space trim_optional trim_to_optional
room_built = refl

rehydrate-update_room_example :
    rehydrate_room (update_room room_change room).0 ≡ ok (update_room room_change room).0
rehydrate-update_room_example = rehydrate-update_room room false room_change room_built

room_valid : is_room_status room.status ≡ true
unfolding is_room_status
room_valid = refl
