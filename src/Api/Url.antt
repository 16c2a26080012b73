-- ===== src/Api/Url.antt =====
-- web/src/api.ts, lines 15-20 and 86-103: the addresses of requests. `encodeURIComponent` and the
-- serialiser of `URLSearchParams` belong to the platform: they are parameters.
use easy_webdav.Prelude.{
  List, [], ◌∷◌, ◌++◌, Text, units, is_truthy, or_else, ◌==◌, if◌then◌else◌, any, map,
}

-- `base.replace(/\/$/, '')`.
pub strip_trailing_slash : Text → Text
strip_trailing_slash [] = []
strip_trailing_slash (c ∷ []) = if c == b'/' then [] else c ∷ []
strip_trailing_slash (c ∷ d ∷ s) = c ∷ strip_trailing_slash (d ∷ s)

-- `path.replace(/^\//, '')`.
pub strip_leading_slash : Text → Text
strip_leading_slash [] = []
strip_leading_slash (c ∷ s) = if c == b'/' then s else c ∷ s

unfoldable pub endpoint : Text → Text → Text
unfolding strip_trailing_slash strip_leading_slash
endpoint base path = strip_trailing_slash base ++ b'/' ∷ strip_leading_slash path

-- What the platform's encoders do to one value.
pub record Encoders : Type 0 where
  pub component : Text → Text
  pub form : Text → Text

-- `URLSearchParams.toString()` of entries in the order in which they were set.
pub search_string : Encoders → List (Text × Text) → Text
search_string encoders [] = []
search_string encoders ((key, value) ∷ []) = key ++ b'=' ∷ encoders.form value
search_string encoders ((key, value) ∷ next ∷ rest) =
    (key ++ b'=' ∷ encoders.form value) ++ b'&' ∷ search_string encoders (next ∷ rest)

abbrev when_set : Text → Text → List (Text × Text)
when_set key [] = []
when_set key (c ∷ s) = (key, c ∷ s) ∷ []

-- `fileQuery`: an absent value is the empty text, which the code treats alike.
unfoldable pub file_query : Encoders → Text → Text → Text → Text
unfolding search_string
file_query encoders path params_user user_id =
    search_string encoders
      (when_set (units "path") path ++ when_set (units "user_id") (or_else user_id params_user))

unfoldable pub raw_url : Encoders → Text → Text → Text → Text
raw_url encoders base path user_id =
    endpoint base (units "api/v1/files/raw?" ++ file_query encoders path [] user_id)

-- `paths.length ? paths : ['']`.
abbrev or_root : List Text → List Text
or_root [] = [] ∷ []
or_root (path ∷ paths) = path ∷ paths

unfoldable pub download_url : Encoders → Text → List Text → Text → Text
unfolding search_string
download_url encoders base paths user_id = endpoint base (
    units "api/v1/files/download?"
    ++ search_string encoders
        (map (λ path. (units "path", path)) (or_root paths) ++ when_set (units "user_id") user_id))

-- `withUser` of web/src/uploader.ts.
unfoldable pub with_user : Encoders → Text → Text → Text
with_user encoders path user_id =
    if is_truthy user_id
    then path
      ++ (if any (λ c. c == b'?') path then b'&' else b'?') ∷ units "user_id="
      ++ encoders.component user_id
    else path
