-- ===== src/Property/Room/Rules.antt =====
-- A room that `RehydrateRoom` accepts stays one through every call, and what maintenance allows.
use stds_backend_go.Prelude.{
  ◌≡◌, ◌↔◌, ◌⊎◌, refl, Bool, true, false, String, Option, none, some, arith, ◌==◌, if◌then◌else◌,
  ok, Leaves, Leaves-then, Bool-cases, inl, inr,
}
use stds_backend_go.Prelude.Text.{
  trim_space, trim_space_idem, trim_optional, trim_optional_idem, eq_other, eq_of_eqb, not_both,
}
use stds_backend_go.Prelude.Patch.{patch_text-trimmed}
use stds_backend_go.Property.Defs.{room_is_in_maintenance, room_is_occupied}
use stds_backend_go.Property.Room.Defs.{
  RoomState, RoomUpdateInput, is_room_status, normalize_room_state, rehydrate_room, update_room,
  update_room_name, update_room_fields, room_vacant, room_occupied, room_maintenance,
  ensure_room_deletable, ensure_can_enter_maintenance, to_maintenance, enter_maintenance,
}

status_not_blank : (status : String) → is_room_status status ≡ true → (status == "") ≡ false
unfolding is_room_status
status_not_blank status h = elim (Bool-cases (status == "")) [
  | inl e ↦ ground (
    arith,
    eq_other status "" room_vacant refl e,
    eq_other status "" room_occupied refl e,
    eq_other status "" room_maintenance refl e,
  )
  | inr e ↦ e
]

trim_vacant : trim_space room_vacant ≡ room_vacant
unfolding trim_space
trim_vacant = refl

module _ {F J : Type 0} where
  pub record IsNormalRoom (s : RoomState F J) : Type 0 where
    pub id : trim_space s.id ≡ s.id
    pub property_id : trim_space s.property_id ≡ s.property_id
    pub name : trim_space s.name ≡ s.name
    pub named : (s.name == "") ≡ false
    pub status : trim_space s.status ≡ s.status
    pub status_valid : is_room_status s.status ≡ true
    pub floor : trim_optional s.floor ≡ s.floor
    pub room_type : trim_optional s.room_type ≡ s.room_type
    pub notes : trim_optional s.notes ≡ s.notes
    pub zone : trim_optional s.zone ≡ s.zone

  module _ (s : RoomState F J) (required : Bool) {t : RoomState F J}
      (h : normalize_room_state s required ≡ ok t) where
    normal_ids :
        (trim_space t.id ≡ t.id)
        × (trim_space t.property_id ≡ t.property_id)
        × (trim_space t.name ≡ t.name)
        × ((t.name == "") ≡ false)
    unfolding normalize_room_state
    normal_ids =
        ground (arith, trim_space_idem s.id, trim_space_idem s.property_id, trim_space_idem s.name)

    normal_status : (trim_space t.status ≡ t.status) × (is_room_status t.status ≡ true)
    unfolding normalize_room_state
    normal_status = ground (arith, trim_space_idem s.status, trim_vacant)

    normal_texts :
        (trim_optional t.floor ≡ t.floor)
        × (trim_optional t.room_type ≡ t.room_type)
        × (trim_optional t.notes ≡ t.notes)
        × (trim_optional t.zone ≡ t.zone)
    unfolding normalize_room_state
    normal_texts = ground (
      arith,
      trim_optional_idem s.floor,
      trim_optional_idem s.room_type,
      trim_optional_idem s.notes,
      trim_optional_idem s.zone,
    )

    pub normalize_room_state-IsNormalRoom : IsNormalRoom t
    normalize_room_state-IsNormalRoom =
        let (id, property_id, name, named) = normal_ids in
        let (status, status_valid) = normal_status in
        let (floor, room_type, notes, zone) = normal_texts in
        record {
          id = id;
          property_id = property_id;
          name = name;
          named = named;
          status = status;
          status_valid = status_valid;
          floor = floor;
          room_type = room_type;
          notes = notes;
          zone = zone;
        }

  rehydrate_normal_room : (t : RoomState F J) → IsNormalRoom t → rehydrate_room t ≡ ok t
  unfolding rehydrate_room normalize_room_state
  rehydrate_normal_room t n = ground (arith, n, status_not_blank t.status n.status_valid)

  with_room_name :
      (s : RoomState F J)
      → IsNormalRoom s
      → (x : String) → trim_space x ≡ x
      → (x == "") ≡ false
      → IsNormalRoom (record s { name = x })
  with_room_name s n x h e = ground arith

  update_room_name-IsNormalRoom :
      (input : Option String) (s : RoomState F J)
      → IsNormalRoom s
      → Leaves IsNormalRoom (update_room_name input s)
  unfolding update_room_name
  update_room_name-IsNormalRoom none s n = record { holds = n }
  update_room_name-IsNormalRoom (some input) s n = elim (Bool-cases (trim_space input == "")) [
    | inl blank ↦ rw blank (record { holds = n })
    | inr full ↦
        rw full
          (record { holds = with_room_name s n (trim_space input) (trim_space_idem input) full })
  ]

  update_room_fields-IsNormalRoom :
      (input : RoomUpdateInput F J) (s : RoomState F J)
      → IsNormalRoom s
      → Leaves IsNormalRoom (update_room_fields input s)
  update_room_fields-IsNormalRoom input s n = record {
    holds = record {
      id = n.id;
      property_id = n.property_id;
      name = n.name;
      named = n.named;
      status = n.status;
      status_valid = n.status_valid;
      floor = patch_text-trimmed input.floor input.clear_floor s.floor n.floor;
      room_type = patch_text-trimmed input.room_type input.clear_room_type s.room_type n.room_type;
      notes = patch_text-trimmed input.notes input.clear_notes s.notes n.notes;
      zone = patch_text-trimmed input.zone input.clear_zone s.zone n.zone;
    };
  }

  update_room-IsNormalRoom :
      (input : RoomUpdateInput F J) (s : RoomState F J)
      → IsNormalRoom s
      → Leaves IsNormalRoom (update_room input s)
  unfolding update_room
  update_room-IsNormalRoom input s n =
      Leaves-then (update_room_name input.name) (update_room_fields input) s
        (update_room_name-IsNormalRoom input.name s n) (update_room_fields-IsNormalRoom input)

  -- `UpdateRoom` of a room that `NewRoom` or `RehydrateRoom` returned leaves, with an error or
  -- without, a room that `RehydrateRoom` accepts and returns unchanged.
  pub rehydrate-update_room :
      (s : RoomState F J) (required : Bool) (input : RoomUpdateInput F J) {t : RoomState F J}
      → normalize_room_state s required ≡ ok t
      → rehydrate_room (update_room input t).0 ≡ ok (update_room input t).0
  rehydrate-update_room s required input {t} h =
      rehydrate_normal_room (update_room input t).0
        (update_room-IsNormalRoom input t (normalize_room_state-IsNormalRoom s required h)).holds

  module _ (s : RoomState F J) where
    enter_vacant :
        s.status ≡ room_vacant
        → (enter_maintenance s ≡ (record s { status = room_maintenance }, none))
          × (ensure_room_deletable s ≡ none)
    unfolding enter_maintenance ensure_can_enter_maintenance ensure_room_deletable to_maintenance
    enter_vacant h = rw h (refl, refl)

    enter_occupied :
        s.status ≡ room_occupied
        → (enter_maintenance s ≡ (s, some room_is_occupied))
          × (ensure_room_deletable s ≡ some room_is_occupied)
    unfolding enter_maintenance ensure_can_enter_maintenance ensure_room_deletable
    enter_occupied h = rw h (refl, refl)

    enter_twice :
        s.status ≡ room_maintenance
        → (enter_maintenance s ≡ (s, some room_is_in_maintenance))
          × (ensure_room_deletable s ≡ some room_is_in_maintenance)
    unfolding enter_maintenance ensure_can_enter_maintenance ensure_room_deletable
    enter_twice h = rw h (refl, refl)

  room_status_cases :
      (s : RoomState F J)
      → is_room_status s.status ≡ true
      → (s.status ≡ room_vacant) ⊎ ((s.status ≡ room_occupied) ⊎ (s.status ≡ room_maintenance))
  unfolding is_room_status
  room_status_cases s h = elim (Bool-cases (s.status == room_vacant)) [
    | inl vacant ↦ inl (eq_of_eqb vacant)
    | inr v ↦ elim (Bool-cases (s.status == room_occupied)) [
      | inl occupied ↦ inr (inl (eq_of_eqb occupied))
      | inr o ↦ inr (inr (eq_of_eqb (ground arith)))
    ]
  ]

  -- Of a room with a valid status: it enters maintenance without an error exactly if it is vacant,
  -- it may be deleted exactly if it is vacant, `EnterMaintenance` changes nothing of an occupied room
  -- and only the status of another, and a second call returns an error and changes nothing.
  pub maintenance_once :
      (s : RoomState F J)
      → is_room_status s.status ≡ true
      → (((enter_maintenance s).1 ≡ none) ↔ (s.status ≡ room_vacant))
        × ((ensure_room_deletable s ≡ none) ↔ (s.status ≡ room_vacant))
        × ((enter_maintenance s).0
            ≡ (if s.status == room_occupied then s else record s { status = room_maintenance }))
        × (¬ ((enter_maintenance (enter_maintenance s).0).1 ≡ none))
        × ((enter_maintenance (enter_maintenance s).0).0 ≡ (enter_maintenance s).0)
  maintenance_once s h = elim (room_status_cases s h) [
    | inl vacant ↦
        let (first, deletable) = enter_vacant s vacant in
        let (second, _) = enter_twice (record s { status = room_maintenance }) refl in
        rw (first, deletable, second)
          (
            ((λ _. vacant), λ _. refl),
            ((λ _. vacant), λ _. refl),
            rw vacant refl,
            (λ e. cc e),
            refl,
          )
    | inr (inl occupied) ↦
        let (first, deletable) = enter_occupied s occupied in
        let blocked = not_both room_occupied room_vacant refl occupied in
        rw (first, deletable, first)
          (
            ((λ e. cc e), λ v. absurd (blocked v)),
            ((λ e. cc e), λ v. absurd (blocked v)),
            rw occupied refl,
            (λ e. cc e),
            refl,
          )
    | inr (inr maintenance) ↦
        let (first, deletable) = enter_twice s maintenance in
        let blocked = not_both room_maintenance room_vacant refl maintenance in
        rw (first, deletable, first)
          (
            ((λ e. cc e), λ v. absurd (blocked v)),
            ((λ e. cc e), λ v. absurd (blocked v)),
            rw maintenance refl,
            (λ e. cc e),
            refl,
          )
  ]
