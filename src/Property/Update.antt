-- ===== src/Property/Update.antt =====
-- `Update` writes field by field, and what it has written before an error stays written: also then
-- the property is one that `Rehydrate` accepts and leaves as it is.
use stds_backend_go.Prelude.{
  ◌≡◌, Bool, true, false, String, Option, none, some, arith, ◌==◌, ok, Leaves, leaves_rules, Keeps,
  Keeps-method, Keeps-then, Bool-cases, inl, inr,
}
use stds_backend_go.Prelude.Text.{trim_space, trim_space_idem, trim_optional}
use stds_backend_go.Prelude.Patch.{patch_text, patch_text-trimmed}
use stds_backend_go.Prelude.Floats.{Floats}
use stds_backend_go.Property.Defs.{
  State, UpdateInput, is_valid_billing_cadence, normalize_state, rehydrate, update_name,
  update_public_name, update_address, update_price, update_cadence, update_subtitle,
  update_optional, update,
}
use stds_backend_go.Property.Normal.{
  IsText, IsNormal, rehydrate_of_IsNormal, normalize_state-IsNormal,
}

IsText-trim_space : (input : String) → (trim_space input == "") ≡ false → IsText (trim_space input)
IsText-trim_space input h = record { trimmed = trim_space_idem input; full = h }

module _ (f : Floats) (J : Type 0) (s : State f.Float64 J) (n : IsNormal f J s) where
  with_name : (x : String) → IsText x → IsNormal f J (record s { name = x })
  with_name x h = ground arith

  with_public_name : (x : String) → IsText x → IsNormal f J (record s { property_public_name = x })
  with_public_name x h = ground arith

  with_address : (x : String) → IsText x → IsNormal f J (record s { address = x })
  with_address x h = ground arith

  with_price :
      (p : f.Float64)
      → f.le_zero p ≡ false
      → IsNormal f J (record s { electricity_unit_price = some p })
  with_price p h = ground arith

  with_cadence :
      (x : String)
      → trim_space x ≡ x
      → is_valid_billing_cadence x ≡ true
      → IsNormal f J (record s { default_electricity_billing_cadence = x })
  with_cadence x h v = ground arith

  with_subtitle :
      (o : Option String) → trim_optional o ≡ o → IsNormal f J (record s { subtitle = o })
  with_subtitle o h = ground arith

module _ (f : Floats) (J : Type 0) where
  update_name-IsNormal :
      (input : Option String) (s : State f.Float64 J)
      → IsNormal f J s
      → Leaves (IsNormal f J) (update_name f J input s)
  unfolding update_name
  update_name-IsNormal none s n = record { holds = n }
  update_name-IsNormal (some input) s n = elim (Bool-cases (trim_space input == "")) [
    | inl blank ↦ rw blank (record { holds = n })
    | inr full ↦
        rw full
          (record { holds = with_name f J s n (trim_space input) (IsText-trim_space input full) })
  ]

  update_public_name-IsNormal :
      (input : Option String) (s : State f.Float64 J)
      → IsNormal f J s
      → Leaves (IsNormal f J) (update_public_name f J input s)
  unfolding update_public_name
  update_public_name-IsNormal none s n = record { holds = n }
  update_public_name-IsNormal (some input) s n = elim (Bool-cases (trim_space input == "")) [
    | inl blank ↦ rw blank (record { holds = n })
    | inr full ↦ rw full (record {
      holds = with_public_name f J s n (trim_space input) (IsText-trim_space input full);
    })
  ]

  update_address-IsNormal :
      (input : Option String) (s : State f.Float64 J)
      → IsNormal f J s
      → Leaves (IsNormal f J) (update_address f J input s)
  unfolding update_address
  update_address-IsNormal none s n = record { holds = n }
  update_address-IsNormal (some input) s n = elim (Bool-cases (trim_space input == "")) [
    | inl blank ↦ rw blank (record { holds = n })
    | inr full ↦
        rw full (record {
          holds = with_address f J s n (trim_space input) (IsText-trim_space input full);
        })
  ]

  update_price-IsNormal :
      (role : String) (price : Option f.Float64) (s : State f.Float64 J)
      → IsNormal f J s
      → Leaves (IsNormal f J) (update_price f J role price s)
  unfolding update_price
  update_price-IsNormal role none s n = record { holds = n }
  update_price-IsNormal role (some price) s n = elim (Bool-cases (f.le_zero price)) [
    | inl bad ↦ rw bad (search (leaves_rules, n) depth 10)
    | inr good ↦ rw good (search (leaves_rules, n, with_price f J s n price good) depth 10)
  ]

  update_cadence-IsNormal :
      (input : Option String) (s : State f.Float64 J)
      → IsNormal f J s
      → Leaves (IsNormal f J) (update_cadence f J input s)
  unfolding update_cadence
  update_cadence-IsNormal none s n = record { holds = n }
  update_cadence-IsNormal (some input) s n =
      elim (Bool-cases (is_valid_billing_cadence (trim_space input))) [
        | inl valid ↦ rw valid (record {
          holds = with_cadence f J s n (trim_space input) (trim_space_idem input) valid;
        })
        | inr bad ↦ rw bad (record { holds = n })
      ]

  update_subtitle-IsNormal :
      (input : UpdateInput f.Float64 J) (s : State f.Float64 J)
      → IsNormal f J s
      → Leaves (IsNormal f J) (update_subtitle f J input s)
  update_subtitle-IsNormal input s n = record {
    holds =
        with_subtitle f J s n (patch_text input.subtitle input.clear_subtitle s.subtitle)
          (patch_text-trimmed input.subtitle input.clear_subtitle s.subtitle n.subtitle);
  }

  update_optional-IsNormal :
      (input : UpdateInput f.Float64 J) (s : State f.Float64 J)
      → IsNormal f J s
      → Leaves (IsNormal f J) (update_optional f J input s)
  update_optional-IsNormal input s n = record {
    holds = record {
      name = n.name;
      property_public_name = n.property_public_name;
      subtitle = n.subtitle;
      address = n.address;
      price = n.price;
      cadence = n.cadence;
      cadence_valid = n.cadence_valid;
      owner_id = n.owner_id;
      contact_phone =
          patch_text-trimmed input.contact_phone input.clear_contact_phone s.contact_phone
            n.contact_phone;
      contact_email =
          patch_text-trimmed input.contact_email input.clear_contact_email s.contact_email
            n.contact_email;
      notes = patch_text-trimmed input.notes input.clear_notes s.notes n.notes;
    };
  }

  update-IsNormal : (input : UpdateInput f.Float64 J) → Keeps (IsNormal f J) (update f J input)
  unfolding update
  update-IsNormal input =
      Keeps-then
        (Keeps-then
          (Keeps-then
            (Keeps-then
              (Keeps-then
                (Keeps-then (Keeps-method _ (update_name-IsNormal input.name))
                  (Keeps-method _ (update_public_name-IsNormal input.property_public_name)))
                (Keeps-method _ (update_subtitle-IsNormal input)))
              (Keeps-method _ (update_address-IsNormal input.address)))
            (Keeps-method _ (update_price-IsNormal input.actor_role input.electricity_unit_price)))
          (Keeps-method _ (update_cadence-IsNormal input.default_electricity_billing_cadence)))
        (Keeps-method _ (update_optional-IsNormal input))

  -- `Update` of a property that `New` or `Rehydrate` returned leaves, with an error or without, a
  -- property that `Rehydrate` accepts and returns unchanged.
  pub rehydrate-update :
      (s : State f.Float64 J) (required : Bool) (input : UpdateInput f.Float64 J)
      {t : State f.Float64 J}
      → normalize_state f J s required ≡ ok t
      → rehydrate f J (update f J input t).0 ≡ ok (update f J input t).0
  rehydrate-update s required input {t} h =
      rehydrate_of_IsNormal f J (update f J input t).0
        ((update-IsNormal input).keeps t (normalize_state-IsNormal f J s required h)).holds
