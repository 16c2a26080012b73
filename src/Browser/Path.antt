-- ===== src/Browser/Path.antt =====
-- web/src/views/FileBrowserView.vue, lines 52-59, 77-79 and 98-102: the directory that is shown, and the
-- addresses that lead to others.
pub mod Laws
use easy_webdav.Prelude.{
  ℕ, Bool, true, false, ◌&&◌, ◌||◌, not, List, [], ◌∷◌, ◌++◌, Option, none, some, Text, units,
  String, str_eq, is_truthy, keep, join_slash, split_slash, join_nonempty, map, if◌then◌else◌,
}
use easy_webdav.Api.Types.{Entry, User}
use easy_webdav.Preview.Overlay.{Props}
use easy_webdav.Api.Url.{Encoders}

-- `route.params.pathMatch`: a list of decoded parts, or one text, empty if it is absent.
pub data PathMatch : Type 0 where
  parts : List Text → PathMatch
  whole : Text → PathMatch

unfoldable pub segments : PathMatch → List Text
segments (parts list) = keep is_truthy list
segments (whole value) = keep is_truthy (value ∷ [])

unfoldable pub current_path : PathMatch → Text
current_path value = join_slash (segments value)

unfoldable pub join : PathMatch → Text → Text
join value name = join_nonempty (current_path value ∷ name ∷ [])

-- The encoded segments of the address that `go` pushes.
unfoldable pub go_tail : Encoders → Text → Text
go_tail encoders path = join_slash (map encoders.component (keep is_truthy (split_slash path)))

unfoldable pub go_prefix : Text → Text
go_prefix user_id = if is_truthy user_id then units "/files/u/" ++ user_id else units "/files"

unfoldable pub go : Encoders → Text → Text → Text
go encoders user_id path =
    let tail = go_tail encoders path in
    if is_truthy tail then go_prefix user_id ++ b'/' ∷ tail else go_prefix user_id

-- `canWrite`.
unfoldable pub can_write : Option User → Text → Bool
can_write none user_id = false
can_write (some user) user_id = is_truthy user_id || not (str_eq user.permission "read")

-- What the template hands to `<preview-overlay>`: the entry, the rows and the user, no directory.
unfoldable pub preview_props : Entry → List Entry → Text → Props
preview_props entry rows user_id = record {
  entry = entry;
  siblings = rows;
  directory = [];
  user_id = user_id;
}
