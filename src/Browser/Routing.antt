-- ===== src/Browser/Routing.antt =====
-- web/src/router.ts, lines 20-21: the two routes of the file browser. The router matches without regard to
-- case, and decodes the parameters.
pub mod Laws
use easy_webdav.Prelude.{
  Bool, ◌&&◌, ◌||◌, List, [], ◌∷◌, Option, none, some, Text, units, text_eq, is_truthy, split_slash,
  map, if◌then◌else◌,
}
use easy_webdav.Browser.Path.{parts}
use easy_webdav.Browser.Refs.{Route}

abbrev pub is_u : Text → Bool
is_u part = text_eq part (units "u") || text_eq part (units "U")

module _ (decode : Text → Text) where
  -- `/files/:pathMatch(.*)*`; no parts are as good as an absent parameter.
  abbrev pub files_at : List Text → Route
  files_at rest = record {
    name = units "files";
    user_param = [];
    path_match = parts (map decode rest);
  }

  -- `/files/u/:userId/:pathMatch(.*)*` is tried before it. `rest` are the parts behind `/files`.
  unfoldable pub file_route : List Text → Route
  file_route (first ∷ user ∷ rest) =
      if is_u first && is_truthy user
      then record {
        name = units "user-files";
        user_param = decode user;
        path_match = parts (map decode rest);
      }
      else files_at (first ∷ user ∷ rest)
  file_route rest = files_at rest

  -- The route of a path below `/files`.
  abbrev pub route_below : List Text → Option Route
  route_below ([] ∷ section ∷ rest) =
      if text_eq section (units "files") then some (file_route rest) else none
  route_below _ = none

  unfoldable pub match_files : Text → Option Route
  match_files path = route_below (split_slash path)
