-- ===== src/Browser/Refs.antt =====
-- web/src/views/FileBrowserView.vue: what the view is given, and its refs.
use easy_webdav.Prelude.{Bool, Option, Text, if◌then◌else◌, text_eq, units, []}
use easy_webdav.Floats.{Floats}
use easy_webdav.Api.Types.{Entry, User}
use easy_webdav.Api.Url.{Encoders}
use easy_webdav.Upload.Session.{ConflictChoice}
use easy_webdav.Browser.Path.{PathMatch, current_path, can_write}
use easy_webdav.Browser.Listing.{Platform, Sorting}
use easy_webdav.Browser.Panel.{Translator, Panel, Place}
use easy_webdav.Browser.Panel.Dialogs.{Dialogs}

-- What stays while the view shows one address for one user: `user` is `session.user`, and `date` is
-- `formatDate`.
pub record Visit : Type 1 where
  pub address : PathMatch
  pub user_id : Text
  pub user : Option User
  pub admin : Bool
  pub base : Text
  pub encoders : Encoders
  pub platform : Platform
  pub floats : Floats
  pub t : Translator
  pub date : Text → Text

unfoldable pub place_of : Visit → Place
place_of visit = record {
  path = current_path visit.address;
  user_id = visit.user_id;
  admin = visit.admin;
}

-- `route`: its name, its parameter `userId`, and `pathMatch`.
pub record Route : Type 0 where
  pub name : Text
  pub user_param : Text
  pub path_match : PathMatch

-- `userId`.
unfoldable pub route_user : Route → Text
route_user route = if text_eq route.name (units "user-files") then route.user_param else []

-- The same view at another address.
unfoldable pub at_route : Route → Visit → Visit
at_route route visit = record visit { address = route.path_match; user_id = route_user route }

-- `canWrite`.
unfoldable pub may_write : Visit → Bool
may_write visit = can_write visit.user visit.user_id

-- The refs of the question about a taken name.
pub record Question : Type 0 where
  pub modal : Bool
  pub name : Text
  pub choice : ConflictChoice
  pub apply_all : Bool

-- The refs of the view.
pub record Browser : Type 0 where
  pub panel : Panel
  pub dialogs : Dialogs
  pub question : Question
  pub sorting : Sorting
  pub query : Text
  pub hidden : Bool
  pub preview_entry : Option Entry
  pub drop_active : Bool
