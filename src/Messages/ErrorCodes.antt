-- ===== src/Messages/ErrorCodes.antt =====
-- web/src/error-codes.ts. A code that names a property of every JavaScript object, such as
-- `constructor`, is no code of the server and is left aside.
use easy_webdav.Prelude.{List, [], ◌∷◌, Option, none, some, String, str_eq, if◌then◌else◌}

abbrev pub Table : Type 0
Table = List (String × String)

-- `table[code]`.
unfoldable pub entry : String → Table → Option String
entry code [] = none
entry code ((k, value) ∷ rest) = if str_eq k code then some value else entry code rest

abbrev pub error_messages : Table
error_messages =
    ("INVALID_CREDENTIALS", "Invalid username or password")
    ∷ ("UNAUTHENTICATED", "Authentication required")
    ∷ ("READ_ONLY", "This account is read-only")
    ∷ ("INVALID_PATH", "The path is invalid")
    ∷ ("FILE_TOO_LARGE", "The file is too large to preview")
    ∷ ("QUOTA_EXCEEDED", "Storage quota exceeded")
    ∷ ("RATE_LIMITED", "Too many attempts, please wait a moment")
    ∷ ("USER_EXISTS", "That username is already taken")
    ∷ ("LAST_ADMIN", "The last administrator cannot be removed")
    ∷ ("FORBIDDEN", "You do not have permission to do that")
    ∷ ("SETUP_LOCKED", "Setup has already been completed")
    ∷ []

abbrev pub error_keys : Table
error_keys =
    ("INVALID_CREDENTIALS", "errors.invalidCredentials")
    ∷ ("UNAUTHENTICATED", "errors.unauthenticated")
    ∷ ("READ_ONLY", "errors.readOnly")
    ∷ ("INVALID_PATH", "errors.invalidPath")
    ∷ ("FILE_TOO_LARGE", "errors.fileTooLarge")
    ∷ ("QUOTA_EXCEEDED", "errors.quotaExceeded")
    ∷ ("RATE_LIMITED", "errors.rateLimited")
    ∷ ("USER_EXISTS", "errors.userExists")
    ∷ ("LAST_ADMIN", "errors.lastAdmin")
    ∷ ("FORBIDDEN", "errors.forbidden")
    ∷ ("SETUP_LOCKED", "errors.setupLocked")
    ∷ []

abbrev or_text : Option String → String → String
or_text none fallback = fallback
or_text (some text) fallback = text

unfoldable pub message_for : String → String → String
message_for code fallback = or_text (entry code error_messages) fallback

-- An absent code is `none`; the empty text has no entry.
unfoldable pub error_key : Option String → String
error_key none = "errors.generic"
error_key (some code) = or_text (entry code error_keys) "errors.generic"
