-- ===== src/Api/Request.antt =====
-- web/src/api.ts, lines 22-45: one request. The values of JSON belong to the platform, and so does the
-- text of the error that reading a field of `null` throws.
use easy_webdav.Prelude.{
  ℕ, ◌-◌, ◌≡◌, refl, ap, Bool, true, false, ◌&&◌, ◌||◌, not, leb, List, [], ◌∷◌, ◌++◌, Option, none,
  some, Text, units, text_eq, is_truthy, or_else, any, map, if◌then◌else◌, arith, ◌∙◌,
}
use mathlib.Core.Option.{get_or}
use easy_webdav.Api.Problem.{ApiErrorBody, api_error, new_api_error, other, Reply, ok, err}
use easy_webdav.Messages.Locale.{to_lower_unit}

pub record RequestInit : Type 0 where
  pub method : Option Text
  pub headers : List (Text × Text)
  pub body : Option Text

-- `toUpperCase` of a method, which is ASCII.
unfoldable pub to_upper_unit : ℕ → ℕ
to_upper_unit c = if leb 97 c && leb c 122 then c - 32 else c

-- `headers.has`: names of headers are compared without regard to case.
unfoldable pub has_header : Text → List (Text × Text) → Bool
has_header name [] = false
has_header name (header ∷ headers) =
    text_eq (map to_lower_unit header.0) (map to_lower_unit name) || has_header name headers

unfoldable pub request_method : RequestInit → Text
request_method init = map to_upper_unit (or_else (get_or init.method []) (units "GET"))

abbrev pub read_methods : List Text
read_methods = units "GET" ∷ units "HEAD" ∷ units "OPTIONS" ∷ []

unfoldable pub is_read : Text → Bool
is_read method = any (text_eq method) read_methods

-- The header that keeps other sites from sending the request.
unfoldable pub with_origin_header : RequestInit → List (Text × Text) → List (Text × Text)
with_origin_header init headers =
    if not (is_read (request_method init)) && not (has_header (units "X-Requested-With") headers)
    then headers ++ (units "X-Requested-With", units "fetch") ∷ []
    else headers

unfoldable pub with_content_type : RequestInit → List (Text × Text) → List (Text × Text)
with_content_type init headers =
    if is_truthy (get_or init.body []) && not (has_header (units "Content-Type") headers)
    then headers ++ (units "Content-Type", units "application/json") ∷ []
    else headers

unfoldable pub request_headers : RequestInit → List (Text × Text)
request_headers init = with_content_type init (with_origin_header init init.headers)

pub record Response : Type 0 where
  pub is_ok : Bool
  pub status : ℕ
  pub raw : Text

-- What the text of a response is read as: `{}`, a value of JSON, or `{ message: raw }`.
pub data Body (J : Type 0) : Type 0 where
  empty : Body J
  parsed : J → Body J
  plain : Text → Body J

module _ {J : Type 0} (parse : Text → Option J) where
  unfoldable pub response_body : Text → Body J
  response_body [] = empty
  response_body (c ∷ raw) = elim (parse (c ∷ raw)) [
    | some value ↦ parsed value
    | none ↦ plain (c ∷ raw)
  ]

-- The fields of the body that `ApiError` reads; none where the value is `null`.
module _ {J : Type 0} (fields : J → Option ApiErrorBody) where
  unfoldable pub error_body : Body J → Option ApiErrorBody
  error_body empty = some (record { code = none; message = none; details = none })
  error_body (parsed value) = fields value
  error_body (plain raw) = some (record { code = none; message = some raw; details = none })

module _ {J : Type 0} (parse : Text → Option J) (fields : J → Option ApiErrorBody)
    (type_error : Text) where
  -- From the response on.
  unfoldable pub finish_request : Response → Reply (Body J)
  finish_request response =
      let body = response_body parse response.raw in
      if response.is_ok then ok body else elim (error_body fields body) [
        | some error ↦ err (api_error (new_api_error response.status error))
        | none ↦ err (other type_error)
      ]

abbrev pub is_returned {ℓ} : {A : Type ℓ} → Reply A → Bool
is_returned (ok _) = true
is_returned (err _) = false

pub has_header-append :
    (name : Text) (headers more : List (Text × Text))
    → has_header name (headers ++ more) ≡ (has_header name headers || has_header name more)
unfolding has_header
has_header-append name [] more = refl
has_header-append name (header ∷ headers) more = ground (arith, has_header-append name headers more)

pub or_true : (b : Bool) → (b || true) ≡ true
or_true true = refl
or_true false = refl

has_header-appended :
    (headers : List (Text × Text))
    → has_header
        (units "X-Requested-With")
        (headers ++ (units "X-Requested-With", units "fetch") ∷ [])
      ≡ true
unfolding has_header to_lower_unit
has_header-appended headers =
    has_header-append (units "X-Requested-With") headers
      ((units "X-Requested-With", units "fetch") ∷ [])
    ∙ or_true (has_header (units "X-Requested-With") headers)

added_unless :
    (read had : Bool) (name : Text) (headers more : List (Text × Text))
    → has_header name headers ≡ had
    → has_header name more ≡ true
    → (read || has_header name (if not read && not had then more else headers)) ≡ true
added_unless true had name headers more h k = refl
added_unless false true name headers more h k = h
added_unless false false name headers more h k = k

origin_header-IsSent :
    (init : RequestInit) (headers : List (Text × Text))
    → (is_read (request_method init)
        || has_header (units "X-Requested-With") (with_origin_header init headers))
      ≡ true
unfolding with_origin_header
origin_header-IsSent init headers =
    added_unless (is_read (request_method init)) _ (units "X-Requested-With") headers _ refl
      (has_header-appended headers)

kept_header :
    (add : Bool) (name : Text) (headers more : List (Text × Text))
    → (has_header name headers ≡ true)
    → has_header name (if add then headers ++ more else headers) ≡ true
kept_header true name headers more h =
    has_header-append name headers more ∙ ap (λ b. b || has_header name more) h
kept_header false name headers more h = h

still_sent :
    (read add : Bool) (name : Text) (headers more : List (Text × Text))
    → (read || has_header name headers) ≡ true
    → (read || has_header name (if add then headers ++ more else headers)) ≡ true
still_sent true add name headers more h = refl
still_sent false add name headers more h = kept_header add name headers more h

-- A method that writes is sent with the header.
pub request_headers-IsSent :
    (init : RequestInit)
    → (is_read (request_method init)
        || has_header (units "X-Requested-With") (request_headers init))
      ≡ true
unfolding request_headers with_content_type
request_headers-IsSent init =
    still_sent (is_read (request_method init)) _ (units "X-Requested-With")
      (with_origin_header init init.headers) _ (origin_header-IsSent init init.headers)

module _ {J : Type 0} (parse : Text → Option J) (fields : J → Option ApiErrorBody)
    (type_error : Text) where
  returned-if :
      (success : Bool) (body : Body J) (error : Option ApiErrorBody) (status : ℕ)
      → is_returned {0} (
          if success then ok body else elim error [
            | some e ↦ err (api_error (new_api_error status e))
            | none ↦ err (other type_error)
          ])
        ≡ success
  returned-if true body error status = refl
  returned-if false body none status = refl
  returned-if false body (some e) status = refl

  -- A request returns exactly if the response is a success, and throws otherwise.
  pub finish_request_lem :
      (response : Response)
      → is_returned (finish_request parse fields type_error response) ≡ response.is_ok
  unfolding finish_request
  finish_request_lem response =
      returned-if response.is_ok (response_body parse response.raw) _ response.status
