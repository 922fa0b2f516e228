-- ===== src/Property/Normal.antt =====
-- What `New` and `Rehydrate` accept is a fixed point of normalization.
use stds_backend_go.Prelude.{◌≡◌, Bool, true, false, String, arith, ◌==◌, ok}
use stds_backend_go.Prelude.Text.{trim_space, trim_space_idem, trim_optional, trim_optional_idem}
use stds_backend_go.Prelude.Floats.{Floats}
use stds_backend_go.Property.Defs.{
  State, is_valid_billing_cadence, bad_price, normalize_state, rehydrate,
}

-- A text that is trimmed and not empty.
pub record IsText (s : String) : Type 0 where
  pub trimmed : trim_space s ≡ s
  pub full : (s == "") ≡ false

module _ (f : Floats) (J : Type 0) where
  pub record IsNormal (s : State f.Float64 J) : Type 0 where
    pub name : IsText s.name
    pub property_public_name : IsText s.property_public_name
    pub subtitle : trim_optional s.subtitle ≡ s.subtitle
    pub address : IsText s.address
    pub price : bad_price f J false s.electricity_unit_price ≡ false
    pub cadence :
        trim_space s.default_electricity_billing_cadence ≡ s.default_electricity_billing_cadence
    pub cadence_valid : is_valid_billing_cadence s.default_electricity_billing_cadence ≡ true
    pub owner_id : IsText s.owner_id
    pub contact_phone : trim_optional s.contact_phone ≡ s.contact_phone
    pub contact_email : trim_optional s.contact_email ≡ s.contact_email
    pub notes : trim_optional s.notes ≡ s.notes

  module _ (s : State f.Float64 J) (required : Bool) {t : State f.Float64 J}
      (h : normalize_state f J s required ≡ ok t) where
    normal_name : IsText t.name
    unfolding normalize_state
    normal_name = ground (arith, trim_space_idem s.name)

    normal_public_name : IsText t.property_public_name
    unfolding normalize_state
    normal_public_name =
        ground (arith, trim_space_idem s.name, trim_space_idem s.property_public_name)

    normal_subtitle : trim_optional t.subtitle ≡ t.subtitle
    unfolding normalize_state
    normal_subtitle = ground (arith, trim_optional_idem s.subtitle)

    normal_address : IsText t.address
    unfolding normalize_state
    normal_address = ground (arith, trim_space_idem s.address)

    normal_price : bad_price f J false t.electricity_unit_price ≡ false
    unfolding normalize_state
    normal_price = ground arith

    normal_cadence :
        trim_space t.default_electricity_billing_cadence ≡ t.default_electricity_billing_cadence
    unfolding normalize_state
    normal_cadence = ground (arith, trim_space_idem s.default_electricity_billing_cadence)

    normal_cadence_valid : is_valid_billing_cadence t.default_electricity_billing_cadence ≡ true
    unfolding normalize_state
    normal_cadence_valid = ground arith

    normal_owner_id : IsText t.owner_id
    unfolding normalize_state
    normal_owner_id = ground (arith, trim_space_idem s.owner_id)

    normal_contacts :
        (trim_optional t.contact_phone ≡ t.contact_phone)
        × (trim_optional t.contact_email ≡ t.contact_email)
        × (trim_optional t.notes ≡ t.notes)
    unfolding normalize_state
    normal_contacts = ground (
      arith,
      trim_optional_idem s.contact_phone,
      trim_optional_idem s.contact_email,
      trim_optional_idem s.notes,
    )

    pub normalize_state-IsNormal : IsNormal t
    normalize_state-IsNormal =
        let (phone, email, notes) = normal_contacts in
        record {
          name = normal_name;
          property_public_name = normal_public_name;
          subtitle = normal_subtitle;
          address = normal_address;
          price = normal_price;
          cadence = normal_cadence;
          cadence_valid = normal_cadence_valid;
          owner_id = normal_owner_id;
          contact_phone = phone;
          contact_email = email;
          notes = notes;
        }

  -- A normal state is rehydrated as it is.
  pub rehydrate_of_IsNormal : (t : State f.Float64 J) → IsNormal t → rehydrate f J t ≡ ok t
  unfolding rehydrate normalize_state
  rehydrate_of_IsNormal t n = ground arith

  -- A state that `New` or `Rehydrate` returned is one that `Rehydrate` accepts and returns unchanged.
  pub rehydrate-normalize :
      (s : State f.Float64 J) (required : Bool) {t : State f.Float64 J}
      → normalize_state f J s required ≡ ok t
      → rehydrate f J t ≡ ok t
  rehydrate-normalize s required {t} h =
      rehydrate_of_IsNormal t (normalize_state-IsNormal s required h)
