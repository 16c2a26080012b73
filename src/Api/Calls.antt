-- ===== src/Api/Calls.antt =====
-- web/src/api.ts, lines 47-67: the table of the calls. `stringify` is `JSON.stringify`.
pub mod Laws
use easy_webdav.Prelude.{
  ℕ, ◌≡◌, refl, ap, ◌∙◌, Bool, true, false, ◌||◌, not, List, [], ◌∷◌, ◌++◌, Option, none, some,
  Text, units, String, is_truthy, decimal, starts_with, if◌then◌else◌, arith, Bool-cases, inl, inr,
}
use mathlib.Core.Option.{get_or}
use easy_webdav.Api.Types.{Settings}
use easy_webdav.Api.Url.{Encoders, file_query}
use easy_webdav.Api.Request.{RequestInit, request_method, is_read, has_header, request_headers}

-- The values of the fields of a body.
pub data Scalar : Type 0 where
  text : Text → Scalar
  number : ℕ → Scalar
  flag : Bool → Scalar

abbrev pub Fields : Type 0
Fields = List (String × Scalar)

pub data ApiCall : Type 0 where
  me setup_status logout settings users usage_overview usage_me recalculate : ApiCall
  login setup change_password : Text → Text → ApiCall
  save_settings : Settings → ApiCall
  create_user : Fields → ApiCall
  update_user : ℕ → Fields → ApiCall
  delete_user : ℕ → ApiCall
  reset_password : ℕ → Text → ApiCall
  list : Text → Text → ApiCall
  file_action : Text → Fields → Text → ApiCall

abbrev text_fields : Settings → Fields
text_fields [] = []
text_fields ((key, value) ∷ rest) = (key, text value) ∷ text_fields rest

module _ (encoders : Encoders) where
  unfoldable pub call_path : ApiCall → Text
  call_path me = units "api/v1/auth/me"
  call_path setup_status = units "api/v1/setup/status"
  call_path logout = units "api/v1/auth/logout"
  call_path settings = units "api/v1/settings"
  call_path users = units "api/v1/users"
  call_path usage_overview = units "api/v1/usage"
  call_path usage_me = units "api/v1/usage/me"
  call_path recalculate = units "api/v1/usage/recalculate"
  call_path (login username password) = units "api/v1/auth/login"
  call_path (setup username password) = units "api/v1/setup"
  call_path (change_password current password) = units "api/v1/auth/password"
  call_path (save_settings values) = units "api/v1/settings"
  call_path (create_user body) = units "api/v1/users"
  call_path (update_user id body) = units "api/v1/users/" ++ decimal id
  call_path (delete_user id) = units "api/v1/users/" ++ decimal id
  call_path (reset_password id password) =
      units "api/v1/users/" ++ (decimal id ++ units "/password")
  call_path (list path user_id) = units "api/v1/files?" ++ file_query encoders path [] user_id
  call_path (file_action method body user_id) =
      units "api/v1/files/action"
      ++ (if is_truthy user_id then units "?user_id=" ++ encoders.component user_id else [])

unfoldable pub call_method : ApiCall → Option Text
call_method logout = some (units "POST")
call_method recalculate = some (units "POST")
call_method (login username password) = some (units "POST")
call_method (setup username password) = some (units "POST")
call_method (change_password current password) = some (units "POST")
call_method (save_settings values) = some (units "PUT")
call_method (create_user body) = some (units "POST")
call_method (update_user id body) = some (units "PUT")
call_method (delete_user id) = some (units "DELETE")
call_method (reset_password id password) = some (units "POST")
call_method (file_action method body user_id) = some method
call_method _ = none

unfoldable pub call_body : ApiCall → Option Fields
call_body (login username password) =
    some (("username", text username) ∷ ("password", text password) ∷ [])
call_body (setup username password) =
    some (("username", text username) ∷ ("password", text password) ∷ [])
call_body (change_password current password) =
    some (("CurrentPassword", text current) ∷ ("Password", text password) ∷ [])
call_body (save_settings values) = some (text_fields values)
call_body (create_user body) = some body
call_body (update_user id body) = some body
call_body (reset_password id password) = some (("password", text password) ∷ [])
call_body (file_action method body user_id) = some body
call_body _ = none

module _ (stringify : Fields → Text) where
  abbrev written : Option Fields → Option Text
  written none = none
  written (some body) = some (stringify body)

  unfoldable pub call_init : ApiCall → RequestInit
  unfolding call_method call_body
  call_init call = record {
    method = call_method call;
    headers = [];
    body = written (call_body call);
  }
