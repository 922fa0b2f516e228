-- ===== src/Tenant/Tests.antt =====
-- A tenant at concrete values.
use stds_backend_go.Prelude.{◌≡◌, refl, ◌==◌, true, false, String, [], ◌∷◌, none, some, ok}
use stds_backend_go.Prelude.Int.{pos}
use stds_backend_go.Prelude.Text.{trim_space, trim_optional, rune_count}
use stds_backend_go.Tenant.Defs.{
  Texts, State, UpdateInput, normalize_state, rehydrate, update, finish_state, validate_name,
  normalize_email, clone_contacts, clone_all, is_tenant_status, status_active,
}
use stds_backend_go.Tenant.Update.{rehydrate-update_tenant}

abbrev texts : Texts
texts = record { is_valid_email = λ s. s == "a@x.io" }

abbrev tenant : State String
tenant = record {
  id = "t1";
  name = "Ann";
  email = some "a@x.io";
  phone = none;
  contacts = some (some "{}" ∷ []);
  birth_date = none;
  national_id = none;
  address = none;
  occupation = none;
  status = status_active;
  version = pos 1;
}

-- The name is written before the address is refused.
abbrev change : UpdateInput String
change = record {
  name = some " Bea ";
  email = some "nowhere";
  phone = none;
  contacts = some (some (none ∷ []));
  birth_date = none;
  clear_birth_date = true;
  national_id = none;
  clear_national_id = false;
  address = none;
  clear_address = false;
  occupation = none;
  clear_occupation = false;
}

built : normalize_state texts "{}" tenant true ≡ ok tenant
unfolding normalize_state finish_state validate_name normalize_email clone_contacts clone_all
    is_tenant_status trim_space trim_optional rune_count
built = refl

rehydrate-update_tenant_example :
    rehydrate texts "{}" (update texts "{}" change tenant).0
    ≡ ok (update texts "{}" change tenant).0
rehydrate-update_tenant_example = rehydrate-update_tenant texts "{}" tenant true change built
