-- ===== src/Shell/Tests.antt =====
-- The frame (web/src/App.vue) at concrete inputs.
use easy_webdav.Prelude.{◌≡◌, refl, true, false, [], some, units}
use easy_webdav.Api.Types.{User}
use easy_webdav.Screen.{Offers, here, there, pressed}
use easy_webdav.Session.Store.{Session, is_admin, user_is_admin}
use easy_webdav.Session.Guard.{proceed, guard}
use easy_webdav.Shell.{Shell, go_to, menu, frame, location_of, initial_dark, active_section}
use easy_webdav.Shell.Laws.{frame-guard}

abbrev root_user : User
root_user = record {
  id = 1;
  username = units "root";
  role = "admin";
  root_dir = units "/";
  permission = "readwrite";
  quota = 0;
  disabled = false;
}

abbrev with_root : Session
with_root = record {
  user = some root_user;
  insecure = false;
  site_name = units "files";
  settings = [];
  setup_required = false;
  loaded = true;
  title = units "files";
}

abbrev bright : Shell
bright = record {
  dark = false;
  stored_theme = [];
  document_theme = units "light";
  connect_open = false;
  language = record { locale = units "en"; stored = [] };
}

users_offered : Offers (frame bright with_root) (go_to (units "/users"))
unfolding frame menu is_admin user_is_admin
users_offered = there (there (there (here pressed)))

frame-guard_example : guard with_root (location_of (units "/users")) ≡ proceed
frame-guard_example = frame-guard bright with_root root_user (units "/users") refl users_offered

-- A theme of another name counts as light.
odd_theme : initial_dark (units "auto") true ≡ false
unfolding initial_dark
odd_theme = refl

sections :
    (active_section (units "/users") ≡ units "users") × (active_section (units "/") ≡ units "files")
unfolding active_section
sections = (refl, refl)
