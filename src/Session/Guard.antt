-- ===== src/Session/Guard.antt =====
-- web/src/router.ts: the routes and `router.beforeEach`. The matching of a path to a route belongs to
-- vue-router: a location comes with the name of the route that it matched.
use easy_webdav.Prelude.{
  Bool, true, false, not, ◌&&◌, List, [], ◌∷◌, Option, none, some, Text, units, text_eq,
  split_slash, get_elem?, any, if◌then◌else◌,
}
use easy_webdav.Session.Store.{Session, BootstrapAnswers, bootstrap, is_admin}

pub data RouteName : Type 0 where
  login user_files files users overview settings account : RouteName

-- The target of a navigation, after the redirections of the route table.
pub record Location : Type 0 where
  pub name : RouteName
  pub path : Text
  pub full_path : Text

-- `meta.public`.
abbrev pub is_public : RouteName → Bool
is_public login = true
is_public _ = false

abbrev pub admin_only : List Text
admin_only = units "users" ∷ units "overview" ∷ units "settings" ∷ []

-- `String(to.path).split('/')[1]`.
unfoldable pub section_of : Text → Option Text
section_of path = get_elem? (split_slash path) 1

-- `adminOnly.has(section)`.
unfoldable pub is_admin_section : Option Text → Bool
is_admin_section none = false
is_admin_section (some section) = any (text_eq section) admin_only

-- What the guard answers with.
pub data Navigation : Type 0 where
  proceed : Navigation
  to_login : Option Text → Navigation
  to_files : Navigation

-- `to.fullPath === '/files' ? {} : { redirect: to.fullPath }`.
unfoldable pub redirect_query : Text → Option Text
redirect_query full_path = if text_eq full_path (units "/files") then none else some full_path

-- The guard once the session is loaded.
unfoldable pub guard : Session → Location → Navigation
unfolding is_admin_section section_of
guard session to = elim session.user [
  | none ↦ if is_public to.name then proceed else to_login (redirect_query to.full_path)
  | some user ↦
      if is_public to.name
      then to_files
      else if is_admin_section (section_of to.path) && not (is_admin session)
      then to_files
      else proceed
]

-- `if (!session.loaded) await session.bootstrap()`.
unfoldable pub ready : BootstrapAnswers → Session → Session
ready answers session = if session.loaded then session else bootstrap answers session

unfoldable pub before_each : BootstrapAnswers → Session → Location → Session × Navigation
before_each answers session to = (ready answers session, guard (ready answers session) to)

-- The location that a redirection leads to, as the route table resolves its name.
unfoldable pub target : Navigation → Location → Location
target proceed to = to
target (to_login redirect) to = record {
  name = login;
  path = units "/login";
  full_path = units "/login";
}
target to_files to = record { name = files; path = units "/files"; full_path = units "/files" }

-- web/src/views/LoginView.vue: where a successful sign-in goes to.
unfoldable pub after_login : Option Text → Text
after_login none = units "/files"
after_login (some redirect) = redirect
