-- ===== src/Db/Roles.antt =====
-- Roles as the application services read them: `strings.ToLower(strings.TrimSpace(role))`, and
-- `containsAssignedProperty`. A text equals a role name after lowering exactly if its letters, lowered
-- one by one, are those of the name: besides A to Z, only the dotted I and the Kelvin sign become
-- letters of ASCII.
use Prim.Native.Char.{code}
use stds_backend_go.Prelude.{
  ◌≡◌, refl, ℕ, ◌+◌, Bool, true, false, ◌&&◌, ◌||◌, String, List, [], ◌∷◌, Option, none, some, leb,
  eqb, ◌==◌, if◌then◌else◌,
}
use stds_backend_go.Prelude.Text.{trim_space}

unfoldable pub lower_code : ℕ → ℕ
lower_code c =
    if leb 65 c && leb c 90
    then c + 32
    else if eqb c 0x130
    then 105
    else if eqb c 0x212a
    then 107
    else c

unfoldable pub lowers_to : String → String → Bool
lowers_to String.[] String.[] = true
lowers_to String.[] (String.◌∷◌ d t) = false
lowers_to (String.◌∷◌ c s) String.[] = false
lowers_to (String.◌∷◌ c s) (String.◌∷◌ d t) = eqb (lower_code (code c)) (code d) && lowers_to s t

pub data Role : Type 0 where
  admin organizer staff : Role

-- The role, if it is one of the three that may write.
unfoldable pub role_of : String → Option Role
unfolding lowers_to lower_code
role_of role =
    let trimmed = trim_space role in
    if lowers_to trimmed "admin"
    then some admin
    else if lowers_to trimmed "organizer"
    then some organizer
    else if lowers_to trimmed "staff"
    then some staff
    else none

unfoldable pub contains_assigned_property : List String → String → Bool
contains_assigned_property [] property_id = false
contains_assigned_property (assigned_id ∷ ids) property_id =
    trim_space assigned_id == property_id || contains_assigned_property ids property_id

-- `(actorRole == "organizer" || actorRole == "staff") && !containsAssignedProperty(...)` is the
-- negation of this.
unfoldable pub may_access : Role → List String → String → Bool
may_access admin assigned property_id = true
may_access organizer assigned property_id = contains_assigned_property assigned property_id
may_access staff assigned property_id = contains_assigned_property assigned property_id

reads_capital : role_of " Admin " ≡ some admin
unfolding role_of trim_space
reads_capital = refl
