-- ===== src/Access/Tests.antt =====
-- An owner, a staff member and an administrator at concrete requests.
use stds_backend_go.Prelude.{
  ◌≡◌, ◌≢◌, refl, ◌⊎◌, inl, inr, ◌↔◌, Bool, true, String, [], ◌∷◌, none, some, ◌==◌, if◌then◌else◌,
  Result, ok, err, All,
}
use stds_backend_go.Access.Defs.{
  GoError, not_found, Principal, role_admin, pass, require_property_access,
  require_any_property_access, check_property, owner_access, resource_property_id_with_not_found,
  resolve_uuid_param, look_up, lookup_result,
}
use stds_backend_go.Access.Decision.{MayAccess, property_access_iff}
use stds_backend_go.Access.AnyOf.{Some, Answered, any_access_iff}
use stds_backend_go.Access.Resolve.{resource_access_sound}

abbrev owner : Principal
owner = record { user_id = "u1"; firebase_uid = "f1"; role = "owner"; assigned_property_ids = [] }

-- The database names u1 the owner of p1, and knows no other property.
abbrev find_owner : String → Result GoError String
find_owner id = if id == "p1" then ok "u1" else err not_found

abbrev is_uuid : String → Bool
is_uuid s = s == "0d0f"

abbrev params : String → String
params name = if name == "leaseId" then "0d0f" else ""

abbrev lease_property : String → Result GoError String
lease_property id = if id == "0d0f" then ok "p1" else err not_found

p1_given : ◌≢◌ {A = String} "p1" ""
p1_given e = cc e

property_access_iff_example :
    ((require_property_access find_owner (some owner) (ok "p1")).decision ≡ pass)
    ↔ MayAccess find_owner owner "p1"
property_access_iff_example = property_access_iff find_owner owner "p1" p1_given

answered : All (λ id. Answered (find_owner id)) ("p2" ∷ "p1" ∷ [])
unfolding Answered
answered = (inl refl, (inr ("u1", refl), tt))

any_access_iff_example :
    ((require_any_property_access find_owner (some owner) (ok ("p2" ∷ "p1" ∷ []))).decision ≡ pass)
    ↔ ((owner.role ≡ role_admin) ⊎ Some (MayAccess find_owner owner) ("p2" ∷ "p1" ∷ []))
any_access_iff_example = any_access_iff find_owner owner ("p2" ∷ "p1" ∷ []) answered

passes :
    (require_property_access find_owner (some owner) (
      resource_property_id_with_not_found is_uuid params "leaseId"
        (some lease_property)
        none)).decision
    ≡ pass
unfolding require_property_access check_property owner_access resource_property_id_with_not_found
    resolve_uuid_param look_up lookup_result
passes = refl

sets :
    (require_property_access find_owner (some owner) (
      resource_property_id_with_not_found is_uuid params "leaseId"
        (some lease_property)
        none)).property_id
    ≡ some "p1"
unfolding require_property_access check_property owner_access resource_property_id_with_not_found
    resolve_uuid_param look_up lookup_result
sets = refl

resource_access_sound_example :
    (is_uuid "0d0f" ≡ true) × (lease_property "0d0f" ≡ ok "p1") × MayAccess find_owner owner "p1"
resource_access_sound_example =
    resource_access_sound is_uuid params "leaseId" lease_property none find_owner owner passes sets
