-- ===== src/Access/Defs.antt =====
-- The middleware of internal/http/middleware/authorization.go. A handler that calls `c.Next` passes,
-- one that calls `c.Error` and `c.Abort` rejects; `SetPropertyID` sets the property of the request.
-- The request's parameters, the lookups in the database and `uuid.Parse` are parameters here.
use stds_backend_go.Prelude.{
  Bool, String, List, [], ◌∷◌, Option, none, some, ◌==◌, if◌then◌else◌, Result, ok, err,
}
use stds_backend_go.Prelude.Text.{trim_space}
use stds_backend_go.Prelude.Sets.{has}

-- The application errors of internal/shared/apperr that the middleware returns or passes on.
pub data AppError : Type 0 where
  unauthorized forbidden bad_request property_not_found internal_server_error : AppError
  resource_not_found : String → AppError

-- An error is an application error, the not-found error of a repository, or any other.
pub data GoError : Type 0 where
  app_error : AppError → GoError
  not_found other_error : GoError

pub record Principal : Type 0 where
  pub user_id : String
  pub firebase_uid : String
  pub role : String
  pub assigned_property_ids : List String

abbrev pub role_admin : String
role_admin = "admin"

abbrev pub role_owner : String
role_owner = "owner"

pub data Decision : Type 0 where
  pass : Decision
  reject : AppError → Decision

-- The property that the request is set to, and the decision.
pub record Outcome : Type 0 where
  pub property_id : Option String
  pub decision : Decision

abbrev stop : Option String → AppError → Outcome
stop property_id e = record { property_id = property_id; decision = reject e }

abbrev go_on : Option String → Outcome
go_on property_id = record { property_id = property_id; decision = pass }

abbrev pub map_property_resolver_error : GoError → AppError
map_property_resolver_error (app_error e) = e
map_property_resolver_error not_found = internal_server_error
map_property_resolver_error other_error = internal_server_error

abbrev pub map_property_lookup_error : GoError → AppError
map_property_lookup_error not_found = property_not_found
map_property_lookup_error (app_error e) = internal_server_error
map_property_lookup_error other_error = internal_server_error

unfoldable pub require_roles : List String → Option Principal → Decision
require_roles allowed none = reject unauthorized
require_roles allowed (some principal) =
    if has allowed principal.role then pass else reject forbidden

-- What follows a call of `FindOwnerIDByPropertyID`.
unfoldable pub owner_access : Principal → String → Result GoError String → Outcome
owner_access principal property_id (err e) = stop (some property_id) (map_property_lookup_error e)
owner_access principal property_id (ok owner_id) =
    if owner_id == principal.user_id
    then go_on (some property_id)
    else stop (some property_id) forbidden

unfoldable pub unassigned : String → Result GoError String → Outcome
unassigned property_id (err e) = stop (some property_id) (map_property_lookup_error e)
unassigned property_id (ok owner_id) = stop (some property_id) forbidden

-- One round of the loop over the properties for an owner: `rest` is what the next rounds do.
unfoldable pub owner_round : Principal → String → Result GoError String → Outcome → Outcome
owner_round principal property_id (err not_found) rest = rest
owner_round principal property_id (err (app_error e)) rest =
    stop none (map_property_lookup_error (app_error e))
owner_round principal property_id (err other_error) rest =
    stop none (map_property_lookup_error other_error)
owner_round principal property_id (ok owner_id) rest =
    if owner_id == principal.user_id then go_on (some property_id) else rest

unfoldable pub any_assigned : Principal → List String → Outcome
any_assigned principal [] = stop none forbidden
any_assigned principal (property_id ∷ ids) =
    let rest = any_assigned principal ids in
    if has principal.assigned_property_ids property_id then go_on (some property_id) else rest

-- `find_owner` is `FindOwnerIDByPropertyID`.
module _ (find_owner : String → Result GoError String) where
  unfoldable pub check_property : Principal → String → Outcome
  check_property principal property_id =
      if property_id == ""
      then go_on none
      else if principal.role == role_admin
      then go_on (some property_id)
      else if principal.role == role_owner
      then owner_access principal property_id (find_owner property_id)
      else if has principal.assigned_property_ids property_id
      then go_on (some property_id)
      else unassigned property_id (find_owner property_id)

  unfoldable pub require_property_access : Option Principal → Result GoError String → Outcome
  require_property_access none resolved = stop none unauthorized
  require_property_access (some principal) (err e) = stop none (map_property_resolver_error e)
  require_property_access (some principal) (ok property_id) = check_property principal property_id

  unfoldable pub any_owned : Principal → List String → Outcome
  any_owned principal [] = stop none forbidden
  any_owned principal (property_id ∷ ids) =
      owner_round principal property_id (find_owner property_id) (any_owned principal ids)

  unfoldable pub check_any : Principal → List String → Outcome
  check_any principal property_ids =
      if principal.role == role_admin
      then go_on none
      else if principal.role == role_owner
      then any_owned principal property_ids
      else any_assigned principal property_ids

  unfoldable pub require_any_property_access :
      Option Principal → Result GoError (List String) → Outcome
  require_any_property_access none resolved = stop none unauthorized
  require_any_property_access (some principal) (err e) = stop none (map_property_resolver_error e)
  require_any_property_access (some principal) (ok property_ids) = check_any principal property_ids

-- The error of a lookup, translated if the caller has configured an error for it.
unfoldable pub lookup_result {ℓ} :
    {A : Type ℓ} → Option AppError → Result GoError A → Result GoError A
lookup_result not_found_err (ok a) = ok a
lookup_result (some e) (err not_found) = err (app_error e)
lookup_result none (err not_found) = err not_found
lookup_result not_found_err (err (app_error e)) = err (app_error e)
lookup_result not_found_err (err other_error) = err other_error

-- `ResourcePropertyIDWithNotFound` and `ResourcePropertyIDsWithNotFound`, whose results are an id
-- and a list of ids.
unfoldable pub look_up {ℓ} :
    {A : Type ℓ}
    → Result GoError String
    → (String → Result GoError A)
    → Option AppError
    → Result GoError A
look_up (err e) lookup not_found_err = err e
look_up (ok resource_id) lookup not_found_err = lookup_result not_found_err (lookup resource_id)

-- The resolvers. `param_of` is `c.Param`, `query_of` is `c.Query`.
module _ (is_uuid : String → Bool) where
  unfoldable pub resolve_uuid_param : (String → String) → String → Result GoError String
  resolve_uuid_param param_of param =
      let value = param_of param in
      if param == ""
      then err (app_error bad_request)
      else if value == ""
      then err (app_error bad_request)
      else if is_uuid value
      then ok value
      else err (app_error bad_request)

  unfoldable pub param_property_id : (String → String) → String → Result GoError String
  param_property_id param_of param = resolve_uuid_param param_of param

  unfoldable pub query_property_id : (String → String) → String → Result GoError String
  query_property_id query_of param =
      let value = trim_space (query_of param) in
      if param == ""
      then err (app_error bad_request)
      else if value == ""
      then ok ""
      else if is_uuid value
      then ok value
      else err (app_error bad_request)

  unfoldable pub resource_property_id_with_not_found {ℓ} :
      {A : Type ℓ}
      → (String → String)
      → String
      → Option (String → Result GoError A)
      → Option AppError
      → Result GoError A
  resource_property_id_with_not_found param_of param none not_found_err = err other_error
  resource_property_id_with_not_found param_of param (some lookup) not_found_err =
      let resolved = resolve_uuid_param param_of param in
      if param == "" then err other_error else look_up resolved lookup not_found_err
