-- ===== src/Tenant/Update.antt =====
-- `Update` writes field by field and keeps a tenant normal, also where it stops with an error.
use stds_backend_go.Prelude.{
  ◌≡◌, refl, Bool, true, false, String, List, Option, none, some, arith, Result, ok, err, Leaves,
  Keeps, Keeps-method, Keeps-then,
}
use stds_backend_go.Prelude.Text.{trim_space, trim_space_idem}
use stds_backend_go.Prelude.Patch.{patch_text-trimmed}
use stds_backend_go.Tenant.Defs.{
  Texts, State, UpdateInput, TenantError, clone_contacts, validate_name, normalize_email,
  normalize_state, rehydrate, write_name, update_name, write_email, update_email, patch_contacts,
  update_fields, update,
}
use stds_backend_go.Tenant.Normal.{
  IsNormal, clone_contacts_idem, normalize_email_idem, normalize_state-IsNormal, rehydrate_normal,
}

module _ {J : Type 0} (texts : Texts) (empty : J) where
  with_name :
      (s : State J) (x : String)
      → IsNormal texts empty s
      → trim_space x ≡ x
      → validate_name x ≡ none
      → IsNormal texts empty (record s { name = x })
  with_name s x n h v = ground arith

  with_email :
      (s : State J) (e : Option String)
      → IsNormal texts empty s
      → normalize_email texts e false ≡ ok e
      → IsNormal texts empty (record s { email = e })
  with_email s e n h = ground arith

  write_name-IsNormal :
      (x : String) (o : Option TenantError) (s : State J)
      → validate_name x ≡ o
      → trim_space x ≡ x
      → IsNormal texts empty s
      → Leaves (IsNormal texts empty) (write_name texts empty x o s)
  write_name-IsNormal x none s v h n = record { holds = with_name s x n h v }
  write_name-IsNormal x (some e) s v h n = record { holds = n }

  update_name-IsNormal :
      (input : Option String) (s : State J)
      → IsNormal texts empty s
      → Leaves (IsNormal texts empty) (update_name texts empty input s)
  unfolding update_name
  update_name-IsNormal none s n = record { holds = n }
  update_name-IsNormal (some input) s n =
      write_name-IsNormal (trim_space input) _ s refl (trim_space_idem input) n

  write_email-IsNormal :
      (input : String) (r : Result TenantError (Option String)) (s : State J)
      → normalize_email texts (some input) true ≡ r
      → IsNormal texts empty s
      → Leaves (IsNormal texts empty) (write_email texts empty r s)
  write_email-IsNormal input (ok email) s h n = record {
    holds = with_email s email n (normalize_email_idem texts (some input) true h);
  }
  write_email-IsNormal input (err e) s h n = record { holds = n }

  update_email-IsNormal :
      (input : Option String) (s : State J)
      → IsNormal texts empty s
      → Leaves (IsNormal texts empty) (update_email texts empty input s)
  unfolding update_email
  update_email-IsNormal none s n = record { holds = n }
  update_email-IsNormal (some input) s n = write_email-IsNormal input _ s refl n

  patch_contacts-cloned :
      (input : Option (Option (List (Option J)))) (old : Option (List (Option J)))
      → clone_contacts empty old ≡ old
      → clone_contacts empty (patch_contacts texts empty input old)
        ≡ patch_contacts texts empty input old
  patch_contacts-cloned none old h = h
  patch_contacts-cloned (some contacts) old h = clone_contacts_idem empty contacts

  update_fields-IsNormal :
      (input : UpdateInput J) (s : State J)
      → IsNormal texts empty s
      → Leaves (IsNormal texts empty) (update_fields texts empty input s)
  update_fields-IsNormal input s n = record {
    holds = record {
      name = n.name;
      name_valid = n.name_valid;
      email = n.email;
      phone = patch_text-trimmed input.phone false s.phone n.phone;
      contacts = patch_contacts-cloned input.contacts s.contacts n.contacts;
      national_id =
          patch_text-trimmed input.national_id input.clear_national_id s.national_id n.national_id;
      address = patch_text-trimmed input.address input.clear_address s.address n.address;
      occupation =
          patch_text-trimmed input.occupation input.clear_occupation s.occupation n.occupation;
      status = n.status;
      status_valid = n.status_valid;
    };
  }

  update-IsNormal :
      (input : UpdateInput J) → Keeps (IsNormal texts empty) (update texts empty input)
  unfolding update
  update-IsNormal input =
      Keeps-then
        (Keeps-then (Keeps-method _ (update_name-IsNormal input.name))
          (Keeps-method _ (update_email-IsNormal input.email)))
        (Keeps-method _ (update_fields-IsNormal input))

  -- `Update` of a tenant that `New` or `Rehydrate` returned leaves, with an error or without, a tenant
  -- that `Rehydrate` accepts and returns unchanged.
  pub rehydrate-update_tenant :
      (s : State J) (required : Bool) (input : UpdateInput J) {t : State J}
      → normalize_state texts empty s required ≡ ok t
      → rehydrate texts empty (update texts empty input t).0 ≡ ok (update texts empty input t).0
  rehydrate-update_tenant s required input {t} h =
      rehydrate_normal texts empty (update texts empty input t).0
        ((update-IsNormal input).keeps t (normalize_state-IsNormal texts empty s required h)).holds
