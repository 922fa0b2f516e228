-- ===== src/Prelude/Patch.antt =====
-- Optional fields of a patch: a value that is there is written, a missing one clears the field if the
-- patch says so.
use mathlib.Core.Path.{◌≡◌, refl}
use mathlib.Core.Bool.{Bool, true, false}
use mathlib.Core.Option.{Option, none, some}
use Prim.Native.String.{String}
use stds_backend_go.Prelude.Text.{trim_to_optional, trim_optional, trim_optional-trim_to_optional}

-- `if input.X != nil { a.X = &value } else if input.ClearX { a.X = nil }`
abbrev pub patch {ℓ} : {A : Type ℓ} → Option A → Bool → Option A → Option A
patch (some value) clear old = some value
patch none true old = none
patch none false old = old

-- The same for a text, which is trimmed, and nil if it is empty.
abbrev pub patch_text : Option String → Bool → Option String → Option String
patch_text (some value) clear old = trim_to_optional value
patch_text none true old = none
patch_text none false old = old

pub patch_text-trimmed :
    (input : Option String) (clear : Bool) (old : Option String)
    → trim_optional old ≡ old
    → trim_optional (patch_text input clear old) ≡ patch_text input clear old
unfolding trim_optional
patch_text-trimmed (some value) clear old h = trim_optional-trim_to_optional value
patch_text-trimmed none true old h = refl
patch_text-trimmed none false old h = h
