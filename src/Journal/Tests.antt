-- ===== src/Journal/Tests.antt =====
-- A journal log at concrete values.
use stds_backend_go.Prelude.{◌≡◌, refl, none, some, ok}
use stds_backend_go.Prelude.Int.{pos}
use stds_backend_go.Prelude.Text.{trim_space, trim_optional, trim_to_optional}
use stds_backend_go.Journal.Defs.{State, UpdateInput, normalize_state}

abbrev log : State
log = record {
  id = "j1";
  property_id = "p1";
  room_id = none;
  author_id = "u1";
  content = "new lamp";
  expense_amount = some (pos 300);
  expense_description = some "lamp";
}

abbrev change : UpdateInput
change = record { content = some "  "; expense_amount = some (pos 350); expense_description = none }

built : normalize_state log ≡ ok log
unfolding normalize_state trim_space trim_optional trim_to_optional
built = refl
