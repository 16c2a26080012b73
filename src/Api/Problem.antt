-- ===== src/Api/Problem.antt =====
-- web/src/api.ts, lines 1-13: the errors that a request throws.
use easy_webdav.Prelude.{
  ℕ, Text, String, List, [], ◌++◌, Option, none, some, units, decimal, is_truthy, str_eq,
  if◌then◌else◌, ◌≡◌, ◌⊎◌, inl, inr, refl, ◌≡◌,
}
use mathlib.Core.Option.{get_or}

-- `ApiErrorBody`: an absent field is `none`. Of the details only numbers are kept: `remaining` is
-- the one entry that the program reads.
pub record ApiErrorBody : Type 0 where
  pub code : Option String
  pub message : Option Text
  pub details : Option (List (String × ℕ))

pub record ApiError : Type 0 where
  pub status : ℕ
  pub code : String
  pub details : List (String × ℕ)
  pub message : Text

-- `body.message || fallback`: an empty message counts as absent.
message_or : Option Text → Text → Text
message_or none fallback = fallback
message_or (some message) fallback = if is_truthy message then message else fallback

-- `body.code || 'UNKNOWN'`.
code_or : Option String → String → String
code_or none fallback = fallback
code_or (some code) fallback = if str_eq code "" then fallback else code

-- The constructor of `ApiError`.
unfoldable pub new_api_error : ℕ → ApiErrorBody → ApiError
unfolding message_or code_or
new_api_error status body = record {
  status = status;
  code = code_or body.code "UNKNOWN";
  details = get_or body.details [];
  message = message_or body.message (units "HTTP " ++ decimal status);
}

-- Whatever a `catch` may receive: an `ApiError`, or another value with its `String(value)`.
pub data Problem : Type 0 where
  api_error : ApiError → Problem
  other : Text → Problem

-- `error instanceof ApiError ? error.message : String(error)`.
unfoldable pub problem_message : Problem → Text
problem_message (api_error e) = e.message
problem_message (other text) = text

-- What an awaited call gives its caller: a value, or a thrown problem.
pub data Reply {ℓ} (A : Type ℓ) : Type ℓ where
  ok : A → Reply A
  err : Problem → Reply A

pub Reply-cases {ℓ} :
    {A : Type ℓ} (r : Reply A) → ((a : A) × (r ≡ ok a)) ⊎ ((p : Problem) × (r ≡ err p))
Reply-cases (ok a) = inl (a, refl)
Reply-cases (err p) = inr (p, refl)
