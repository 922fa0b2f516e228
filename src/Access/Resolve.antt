-- ===== src/Access/Resolve.antt =====
-- The property that a request is about, and the whole chain from the route to the decision.
use stds_backend_go.Prelude.{
  ◌≡◌, refl, ◌≢◌, Bool, true, Bool-cases, inl, inr, String, Option, none, some, arith, ◌==◌,
  if◌then◌else◌, Result, ok, err, eq_iff,
}
use stds_backend_go.Access.Defs.{
  AppError, GoError, not_found, app_error, other_error, Principal, pass, resolve_uuid_param,
  lookup_result, look_up, resource_property_id_with_not_found, require_property_access,
  check_property, owner_access, unassigned,
}
use stds_backend_go.Access.Decision.{MayAccess, property_access_iff}

owner_access-sets :
    (p : Principal) (x : String) (r : Result GoError String)
    → (owner_access p x r).property_id ≡ some x
unfolding owner_access
owner_access-sets p x (err e) = refl
owner_access-sets p x (ok owner_id) = elim (Bool-cases (owner_id == p.user_id)) [
  | inl same ↦ rw same refl
  | inr other ↦ rw other refl
]

unassigned-sets : (x : String) (r : Result GoError String) → (unassigned x r).property_id ≡ some x
unfolding unassigned
unassigned-sets x (err e) = refl
unassigned-sets x (ok owner_id) = refl

module _ (find_owner : String → Result GoError String) (p : Principal) where
  check_property-sets :
      (x : String)
      → (check_property find_owner p x).property_id ≡ (if x == "" then none else some x)
  unfolding check_property
  check_property-sets x =
      ground (arith, owner_access-sets p x (find_owner x), unassigned-sets x (find_owner x))

  sets_resolved :
      (resolved : Result GoError String) {property_id : String}
      → (require_property_access find_owner (some p) resolved).property_id ≡ some property_id
      → (resolved ≡ ok property_id) × (property_id ≢ "")
  unfolding require_property_access
  sets_resolved (err e) h = cc h
  sets_resolved (ok x) h = elim (Bool-cases (x == "")) [
    | inl blank ↦ cc (rw (check_property-sets x, blank) at h)
    | inr full ↦
        let e = rw (check_property-sets x, full) at h in
        (cc e, λ blank. cc (full, (eq_iff x "").1 (cc (e, blank))))
  ]

module _ (is_uuid : String → Bool) (param_of : String → String) (param : String)
    (lookup : String → Result GoError String) (not_found_err : Option AppError) where
  resolve_ok :
      (id : String)
      → resolve_uuid_param is_uuid param_of param ≡ ok id
      → (id ≡ param_of param) × (is_uuid (param_of param) ≡ true)
  unfolding resolve_uuid_param
  resolve_ok id h = ground arith

  lookup_ok :
      (nf : Option AppError) (r : Result GoError String) {id : String}
      → lookup_result nf r ≡ ok id
      → r ≡ ok id
  unfolding lookup_result
  lookup_ok nf (ok a) h = h
  lookup_ok (some e) (err not_found) h = cc h
  lookup_ok none (err not_found) h = cc h
  lookup_ok nf (err (app_error e)) h = cc h
  lookup_ok nf (err other_error) h = cc h

  look_up_ok :
      (r : Result GoError String) {id : String}
      → look_up r lookup not_found_err ≡ ok id
      → (resource_id : String) × (r ≡ ok resource_id) × (lookup resource_id ≡ ok id)
  unfolding look_up
  look_up_ok (err e) h = cc h
  look_up_ok (ok resource_id) h =
      (resource_id, refl, lookup_ok not_found_err (lookup resource_id) h)

  resource_ok :
      (id : String)
      → resource_property_id_with_not_found is_uuid param_of param (some lookup) not_found_err
        ≡ ok id
      → (is_uuid (param_of param) ≡ true) × (lookup (param_of param) ≡ ok id)
  unfolding resource_property_id_with_not_found
  resource_ok id h = elim (Bool-cases (param == "")) [
    | inl blank ↦ cc (rw blank at h)
    | inr full ↦
        let (resource_id, resolved, found) =
          look_up_ok (resolve_uuid_param is_uuid param_of param) (rw full at h) in
        let (same, uuid) = resolve_ok resource_id resolved in (uuid, rw same at found)
  ]

  -- Where the middleware for a resource lets a request pass and sets a property, the parameter of the
  -- route is a UUID, the property is the one that the lookup names for it, and the principal may
  -- access this property.
  pub resource_access_sound :
      (find_owner : String → Result GoError String) (p : Principal) {property_id : String}
      → let r = require_property_access find_owner (some p) (
          resource_property_id_with_not_found is_uuid param_of param (some lookup) not_found_err) in
        r.decision ≡ pass
        → r.property_id ≡ some property_id
        → (is_uuid (param_of param) ≡ true)
          × (lookup (param_of param) ≡ ok property_id)
          × MayAccess find_owner p property_id
  resource_access_sound find_owner p {property_id} passed at =
      let resolver =
        resource_property_id_with_not_found is_uuid param_of param (some lookup) not_found_err in
      let (resolved, given) = sets_resolved find_owner p resolver at in
      let (uuid, found) = resource_ok property_id resolved in
      (uuid, found, (property_access_iff find_owner p property_id given).0 (rw resolved at passed))
