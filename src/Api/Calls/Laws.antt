-- ===== src/Api/Calls/Laws.antt =====
-- What every call of web/src/api.ts sends, and when it returns.
use easy_webdav.Prelude.{
  ◌≡◌, refl, ◌∙◌, Bool, true, false, ◌||◌, not, List, [], ◌∷◌, ◌++◌, Option, none, some, Text,
  units, is_truthy, starts_with, or_else, map, arith, Bool-cases, inl, inr,
}
use mathlib.Core.Option.{get_or}
use easy_webdav.Api.Problem.{ApiErrorBody}
use easy_webdav.Messages.Locale.{to_lower_unit}
use easy_webdav.Api.Url.{Encoders}
use easy_webdav.Api.Request.{
  RequestInit, Response, request_method, to_upper_unit, is_read, has_header, has_header-append,
  or_true, request_headers, with_content_type, with_origin_header, request_headers-IsSent,
  finish_request, finish_request_lem, is_returned,
}
use easy_webdav.Api.Calls.{
  Fields, ApiCall, call_path, call_method, call_body, call_init, me, setup_status, logout, settings,
  users, usage_overview, usage_me, recalculate, login, setup, change_password, save_settings,
  create_user, update_user, delete_user, reset_password, list, file_action,
}

-- The calls that change something on the server; of an action on files the method tells.
abbrev pub changes : ApiCall → Bool
changes me = false
changes setup_status = false
changes settings = false
changes users = false
changes usage_overview = false
changes usage_me = false
changes (list path user_id) = false
changes (file_action method body user_id) =
    not (is_read (map to_upper_unit (or_else method (units "GET"))))
changes _ = true

abbrev pub has_body : ApiCall → Bool
has_body call = elim (call_body call) [ none ↦ false | some _ ↦ true ]

call_path-starts_with :
    (encoders : Encoders) (call : ApiCall)
    → starts_with (units "api/v1/") (call_path encoders call) ≡ true
unfolding call_path
call_path-starts_with encoders me = refl
call_path-starts_with encoders setup_status = refl
call_path-starts_with encoders logout = refl
call_path-starts_with encoders settings = refl
call_path-starts_with encoders users = refl
call_path-starts_with encoders usage_overview = refl
call_path-starts_with encoders usage_me = refl
call_path-starts_with encoders recalculate = refl
call_path-starts_with encoders (login username password) = refl
call_path-starts_with encoders (setup username password) = refl
call_path-starts_with encoders (change_password current password) = refl
call_path-starts_with encoders (save_settings values) = refl
call_path-starts_with encoders (create_user body) = refl
call_path-starts_with encoders (update_user id body) = refl
call_path-starts_with encoders (delete_user id) = refl
call_path-starts_with encoders (reset_password id password) = refl
call_path-starts_with encoders (list path user_id) = refl
call_path-starts_with encoders (file_action method body user_id) = refl

not-not : (b : Bool) → b ≡ not (not b)
not-not true = refl
not-not false = refl

sent_unless :
    (read changing sent : Bool)
    → read ≡ not changing
    → (read || sent) ≡ true
    → (not changing || sent) ≡ true
sent_unless read changing sent e h = ground arith

appended :
    (headers : List (Text × Text))
    → has_header
        (units "Content-Type")
        (headers ++ (units "Content-Type", units "application/json") ∷ [])
      ≡ true
unfolding has_header to_lower_unit
appended headers =
    has_header-append (units "Content-Type") headers
      ((units "Content-Type", units "application/json") ∷ [])
    ∙ or_true (has_header (units "Content-Type") headers)

content_type-IsSent :
    (init : RequestInit) (headers : List (Text × Text))
    → is_truthy (get_or init.body []) ≡ true
    → has_header (units "Content-Type") (with_content_type init headers) ≡ true
unfolding with_content_type
content_type-IsSent init headers h = elim (Bool-cases (has_header (units "Content-Type") headers)) [
  | inl e ↦ rw (h, e) e
  | inr e ↦ rw (h, e) (appended headers)
]

with_body :
    (init : RequestInit)
    → is_truthy (get_or init.body []) ≡ true
    → has_header (units "Content-Type") (request_headers init) ≡ true
unfolding request_headers
with_body init h = content_type-IsSent init (with_origin_header init init.headers) h

module _ (stringify : Fields → Text) where
  is_read-changes :
      (call : ApiCall) → is_read (request_method (call_init stringify call)) ≡ not (changes call)
  unfolding call_init request_method is_read to_upper_unit call_method
  is_read-changes me = refl
  is_read-changes setup_status = refl
  is_read-changes logout = refl
  is_read-changes settings = refl
  is_read-changes users = refl
  is_read-changes usage_overview = refl
  is_read-changes usage_me = refl
  is_read-changes recalculate = refl
  is_read-changes (login username password) = refl
  is_read-changes (setup username password) = refl
  is_read-changes (change_password current password) = refl
  is_read-changes (save_settings values) = refl
  is_read-changes (create_user body) = refl
  is_read-changes (update_user id body) = refl
  is_read-changes (delete_user id) = refl
  is_read-changes (reset_password id password) = refl
  is_read-changes (list path user_id) = refl
  is_read-changes (file_action method body user_id) =
      not-not (is_read (map to_upper_unit (or_else method (units "GET"))))

  module _ (written : (body : Fields) → is_truthy (stringify body) ≡ true) where
    content_type-has_body :
        (call : ApiCall)
        → has_header (units "Content-Type") (request_headers (call_init stringify call))
          ≡ has_body call
    unfolding request_headers call_init call_method call_body with_content_type with_origin_header
        request_method is_read to_upper_unit has_header to_lower_unit
    content_type-has_body me = refl
    content_type-has_body setup_status = refl
    content_type-has_body logout = refl
    content_type-has_body settings = refl
    content_type-has_body users = refl
    content_type-has_body usage_overview = refl
    content_type-has_body usage_me = refl
    content_type-has_body recalculate = refl
    content_type-has_body (login username password) =
        with_body (call_init stringify (login username password)) (written _)
    content_type-has_body (setup username password) =
        with_body (call_init stringify (setup username password)) (written _)
    content_type-has_body (change_password current password) =
        with_body (call_init stringify (change_password current password)) (written _)
    content_type-has_body (save_settings values) =
        with_body (call_init stringify (save_settings values)) (written _)
    content_type-has_body (create_user body) =
        with_body (call_init stringify (create_user body)) (written _)
    content_type-has_body (update_user id body) =
        with_body (call_init stringify (update_user id body)) (written _)
    content_type-has_body (delete_user id) = refl
    content_type-has_body (reset_password id password) =
        with_body (call_init stringify (reset_password id password)) (written _)
    content_type-has_body (list path user_id) = refl
    content_type-has_body (file_action method body user_id) =
        with_body (call_init stringify (file_action method body user_id)) (written _)

    -- Every call is addressed below `api/v1/`; one that changes something on the server carries the header
    -- that keeps other sites from sending it, and one is marked as JSON exactly if it has a body; and it
    -- returns exactly if the response is a success, and throws otherwise. `JSON.stringify` gives no empty
    -- text.
    pub call_lem :
        {J : Type 0} (parse : Text → Option J) (fields : J → Option ApiErrorBody)
        (type_error : Text) (encoders : Encoders) (call : ApiCall) (response : Response)
        → let headers = request_headers (call_init stringify call) in
          (starts_with (units "api/v1/") (call_path encoders call) ≡ true)
          × ((not (changes call) || has_header (units "X-Requested-With") headers) ≡ true)
          × (has_header (units "Content-Type") headers ≡ has_body call)
          × (is_returned (finish_request parse fields type_error response) ≡ response.is_ok)
    call_lem parse fields type_error encoders call response = (
      call_path-starts_with encoders call,
      sent_unless (is_read (request_method (call_init stringify call))) (changes call) _
          (is_read-changes call) (request_headers-IsSent (call_init stringify call)),
      content_type-has_body call,
      finish_request_lem parse fields type_error response,
    )
