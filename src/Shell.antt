-- ===== src/Shell.antt =====
-- web/src/App.vue: the frame around the views, with the menu, the language, the theme and the dialog of
-- the connection help.
pub mod Laws
pub mod Texts
mod Tests
use easy_webdav.Prelude.{
  Bool, true, false, not, List, [], ◌∷◌, ◌++◌, Option, none, some, Text, units, text_eq, is_truthy,
  or_else, get_elem?, split_slash, if◌then◌else◌,
}
use mathlib.Core.Option.{get_or}
use easy_webdav.Api.Problem.{Reply}
use easy_webdav.Screen.{Part, message, raw, Label, Widget, shows, button, when}
use easy_webdav.Messages.Locale.{Language, toggle_locale}
use easy_webdav.Session.Store.{Session, BootstrapAnswers, bootstrap, sign_out, is_admin}
use easy_webdav.Session.Guard.{
  RouteName, files, overview, users, settings, account, login, Location,
}

-- The refs of the frame, with what it keeps elsewhere: the entry `ew-theme` of the local storage, empty
-- if it is absent, and the attribute of the document.
pub record Shell : Type 0 where
  pub dark : Bool
  pub stored_theme : Text
  pub document_theme : Text
  pub connect_open : Bool
  pub language : Language

abbrev theme_name : Bool → Text
theme_name dark = if dark then units "dark" else units "light"

-- `stored ? stored === 'dark' : systemDark`.
unfoldable pub initial_dark : Text → Bool → Bool
initial_dark stored system_dark =
    if is_truthy stored then text_eq stored (units "dark") else system_dark

-- The watcher of `dark`, which also runs at the start.
unfoldable pub watch_dark : Bool → Shell → Shell
watch_dark dark shell = record shell {
  dark = dark;
  stored_theme = theme_name dark;
  document_theme = theme_name dark;
}

unfoldable pub new_shell : Text → Bool → Language → Shell
unfolding watch_dark initial_dark
new_shell stored system_dark language = watch_dark (initial_dark stored system_dark) (record {
  dark = initial_dark stored system_dark;
  stored_theme = stored;
  document_theme = [];
  connect_open = false;
  language = language;
})

-- `String(route.path).split('/')[1] || 'files'`.
unfoldable pub active_section : Text → Text
active_section path = or_else (get_or (get_elem? (split_slash path) 1) []) (units "files")

pub data ShellEvent : Type 0 where
  go_to : Text → ShellEvent
  switch_locale switch_theme open_connect leave : ShellEvent
  show_connect : Bool → ShellEvent

-- The names of the routes that the menu leads to, as the table of web/src/router.ts has them.
unfoldable pub route_of : Text → RouteName
route_of path =
    if text_eq path (units "/overview")
    then overview
    else if text_eq path (units "/users")
    then users
    else if text_eq path (units "/settings")
    then settings
    else if text_eq path (units "/account")
    then account
    else files

unfoldable pub location_of : Text → Location
location_of path = record { name = route_of path; path = path; full_path = path }

-- What an event asks of the rest of the panel: a navigation, or the end of the session.
pub data Effect : Type 0 where
  no_effect : Effect
  pushes : Location → Effect
  signs_out : Effect

unfoldable pub handle_shell : ShellEvent → Shell → Shell × Effect
handle_shell (go_to path) shell = (shell, pushes (location_of path))
handle_shell switch_locale shell =
    (record shell { language = toggle_locale shell.language }, no_effect)
handle_shell switch_theme shell = (watch_dark (not shell.dark) shell, no_effect)
handle_shell open_connect shell = (record shell { connect_open = true }, no_effect)
handle_shell (show_connect value) shell = (record shell { connect_open = value }, no_effect)
handle_shell leave shell = (shell, signs_out)

-- `signOut`: the store signs out, and the login page follows.
unfoldable pub leave_session : Reply (Unit {0}) → BootstrapAnswers → Session → Session × Location
leave_session reply answers session = (
  sign_out reply answers session,
  record { name = login; path = units "/login"; full_path = units "/login" },
)

unfoldable pub start_session : BootstrapAnswers → Session → Session
start_session answers session = if session.loaded then session else bootstrap answers session

abbrev pub has_user : Session → Bool
has_user session = elim session.user [ none ↦ false | some user ↦ true ]

abbrev is_english : Shell → Bool
is_english shell = text_eq shell.language.locale (units "en")

-- The menu.
unfoldable pub menu : Session → List (Widget ShellEvent)
menu session = when (has_user session) (
    button (message "files" ∷ []) true (go_to (units "/files"))
    ∷ (when (is_admin session) (
          button (message "overview" ∷ []) true (go_to (units "/overview"))
          ∷ button (message "users" ∷ []) true (go_to (units "/users"))
          ∷ button (message "settings" ∷ []) true (go_to (units "/settings"))
          ∷ [])
        ++ button (message "account" ∷ []) true (go_to (units "/account")) ∷ []))

-- The two switches have their titles before their texts.
unfoldable pub top_actions : Shell → Session → List (Widget ShellEvent)
top_actions shell session =
    button
      (raw (if is_english shell then units "中文" else units "English")
        ∷ raw (if is_english shell then units "中文" else units "EN")
        ∷ [])
      true switch_locale
    ∷ button
        (message (if shell.dark then "light" else "dark")
          ∷ raw (if shell.dark then units "☀" else units "☾")
          ∷ [])
        true switch_theme
    ∷ when (has_user session) (
        button (message "connect" ∷ []) true open_connect
        ∷ button (message "signOut" ∷ []) true leave
        ∷ [])

-- The frame around the view; the view itself is shown once the store is loaded.
unfoldable pub frame : Shell → Session → List (Widget ShellEvent)
frame shell session =
    button (raw (units "EW ") ∷ raw session.site_name ∷ []) true (go_to (units "/files"))
    ∷ (menu session
        ++ (top_actions shell session
            ++ when session.insecure (shows (message "insecure" ∷ []) ∷ [])))

unfoldable pub shows_view : Session → Bool
shows_view session = session.loaded
