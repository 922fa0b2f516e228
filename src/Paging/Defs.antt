-- ===== src/Paging/Defs.antt =====
-- pagination.go and uuid.go of internal/http/queryparams. `uuid.Parse` and `time.Parse` are tests.
use stds_backend_go.Prelude.{
  Bool, ◌||◌, String, Option, none, some, ◌==◌, if◌then◌else◌, Result, ok, err,
}
use stds_backend_go.Prelude.Int.{ℤ, pos, ltb_ℤ, sub_int, mul_int}
use stds_backend_go.Prelude.Text.{trim_space}

abbrev pub default_page : ℤ
default_page = pos 1

abbrev pub default_limit : ℤ
default_limit = pos 20

abbrev pub max_limit : ℤ
max_limit = pos 100

pub record Pagination : Type 0 where
  pub page : ℤ
  pub limit : ℤ
  pub offset : ℤ

-- A bad request, with the field that it is about.
pub data QueryError : Type 0 where
  bad_field : String → QueryError

abbrev pub or_default : ℤ → Option ℤ → ℤ
or_default default none = default
or_default default (some value) = value

unfoldable pub normalize_pagination : Option ℤ → Option ℤ → Result QueryError Pagination
normalize_pagination page limit =
    let p = or_default default_page page in
    let l = or_default default_limit limit in
    if ltb_ℤ p (pos 1)
    then err (bad_field "page")
    else if ltb_ℤ l (pos 1) || ltb_ℤ max_limit l
    then err (bad_field "limit")
    else ok (record { page = p; limit = l; offset = mul_int (sub_int p (pos 1)) l })

unfoldable pub normalize_optional_uuid :
    (String → Bool) → Option String → String → Result QueryError (Option String)
normalize_optional_uuid is_uuid none field = ok none
normalize_optional_uuid is_uuid (some value) field =
    let trimmed = trim_space value in
    if trimmed == ""
    then err (bad_field field)
    else if is_uuid trimmed
    then ok (some trimmed)
    else err (bad_field field)
