-- ===== src/Api/Tests.antt =====
-- The client of the HTTP API (web/src/api.ts) at concrete inputs.
use easy_webdav.Prelude.{ℕ, ◌≡◌, refl, true, false, ◌||◌, [], ◌∷◌, Option, none, some, Text, units}
use easy_webdav.Api.Problem.{ApiErrorBody, api_error, new_api_error, err}
use easy_webdav.Api.Url.{endpoint}
use easy_webdav.Api.Request.{
  RequestInit, Response, request_method, is_read, has_header, request_headers, with_origin_header,
  with_content_type, finish_request, response_body, error_body, is_returned, to_upper_unit,
}
use easy_webdav.Prelude.{not, starts_with, decimal}
use easy_webdav.Api.Url.{Encoders}
use easy_webdav.Api.Calls.{Fields, call_path, call_init, delete_user}
use easy_webdav.Api.Calls.Laws.{changes, has_body, call_lem}
use easy_webdav.Messages.Locale.{to_lower_unit}

abbrev login : RequestInit
login = record { method = some (units "post"); headers = []; body = some (units "{}") }

login_headers :
    request_headers login
    ≡ (units "X-Requested-With", units "fetch")
      ∷ (units "Content-Type", units "application/json")
      ∷ []
unfolding request_headers with_origin_header with_content_type request_method to_upper_unit is_read
    has_header to_lower_unit
login_headers = refl

-- A platform that reads no text as JSON.
abbrev no_json : Text → Option ℕ
no_json raw = none

abbrev no_fields : ℕ → Option ApiErrorBody
no_fields value = none

abbrev bad_gateway : Response
bad_gateway = record { is_ok = false; status = 502; raw = units "Bad Gateway" }

gateway_message :
    finish_request no_json no_fields [] bad_gateway
    ≡ err (
        api_error
          (record { status = 502; code = "UNKNOWN"; details = []; message = units "Bad Gateway" }))
unfolding finish_request response_body error_body new_api_error
gateway_message = refl

abbrev braces : Fields → Text
braces body = units "{}"

abbrev plain : Encoders
plain = record { component = λ s. s; form = λ s. s }

call_lem_example :
    let headers = request_headers (call_init braces (delete_user 4)) in
    (starts_with (units "api/v1/") (call_path plain (delete_user 4)) ≡ true)
    × ((not (changes (delete_user 4)) || has_header (units "X-Requested-With") headers) ≡ true)
    × (has_header (units "Content-Type") headers ≡ has_body (delete_user 4))
    × (is_returned (finish_request no_json no_fields [] bad_gateway) ≡ false)
call_lem_example =
    call_lem braces (λ body. refl) no_json no_fields [] plain (delete_user 4) bad_gateway

deletion :
    (call_path plain (delete_user 4) ≡ units "api/v1/users/4") × (changes (delete_user 4) ≡ true)
unfolding call_path decimal
deletion = (refl, refl)

joined_once : endpoint (units "/panel/") (units "/api/v1/users") ≡ units "/panel/api/v1/users"
unfolding endpoint
joined_once = refl
