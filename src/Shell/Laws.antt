-- ===== src/Shell/Laws.antt =====
-- That the menu and the guard agree (web/src/App.vue, web/src/router.ts), and that the theme is kept.
use easy_webdav.Prelude.{
  ◌≡◌, refl, ap, sym, ◌∙◌, ◌&&◌, Bool, true, false, not, some, Text, units, if◌then◌else◌, arith,
  Bool-cases, inl, inr,
}
use easy_webdav.Api.Types.{User}
use easy_webdav.Screen.{Offers, Only, Offers-Only, Only-append, Only-when, when}
use easy_webdav.Session.Store.{Session, is_admin, user_is_admin}
use easy_webdav.Session.Login.{guard-signed_in}
use easy_webdav.Session.Guard.{proceed, to_files, guard, section_of, is_admin_section, is_public}
use easy_webdav.Shell.{
  Shell, ShellEvent, go_to, switch_theme, menu, top_actions, frame, location_of, route_of,
  watch_dark, initial_dark, handle_shell, has_user,
}

never : (b : Bool) → (if b && not true then to_files else proceed) ≡ proceed
never true = refl
never false = refl

public-route_of : (path : Text) → is_public (route_of path) ≡ false
unfolding route_of
public-route_of path = ground arith

module _ (session : Session) (user : User) (known : session.user ≡ some user) where
  guard-plain :
      (path : Text)
      → is_admin_section (section_of path) ≡ false
      → guard session (location_of path) ≡ proceed
  unfolding location_of
  guard-plain path h =
      guard-signed_in session (location_of path) user known (public-route_of path)
      ∙ ap (λ b. if b && not (user_is_admin (some user)) then to_files else proceed) h

  guard-admin : (path : Text) → is_admin session ≡ true → guard session (location_of path) ≡ proceed
  unfolding location_of is_admin
  guard-admin path h =
      guard-signed_in session (location_of path) user known (public-route_of path)
      ∙ ap
          (λ found.
            if is_admin_section (section_of path) && not (user_is_admin found)
            then to_files
            else proceed)
          (sym known)
      ∙ ap (λ b. if is_admin_section (section_of path) && not b then to_files else proceed) h
      ∙ never (is_admin_section (section_of path))

-- What the guard says of an event, if it is a navigation.
abbrev pub LetThrough : Session → ShellEvent → Type 0
LetThrough session (go_to path) = guard session (location_of path) ≡ proceed
LetThrough session _ = Unit

menu-Only :
    (session : Session) (user : User)
    → session.user ≡ some user
    → Only (LetThrough session) (menu session)
unfolding menu is_admin_section section_of
menu-Only session user known = Only-when (LetThrough session) (has_user session) _ (λ _. (
  λ _. guard-plain session user known (units "/files") refl,
  Only-append (LetThrough session) (when (is_admin session) _) _
      (Only-when (LetThrough session) (is_admin session) _ (λ admin. (
        λ _. guard-admin session user known (units "/overview") admin,
        (
          λ _. guard-admin session user known (units "/users") admin,
          (λ _. guard-admin session user known (units "/settings") admin, tt),
        ),
      )))
      (λ _. guard-plain session user known (units "/account") refl, tt),
))

frame-Only :
    (shell : Shell) (session : Session) (user : User)
    → session.user ≡ some user
    → Only (LetThrough session) (frame shell session)
unfolding frame top_actions is_admin_section section_of
frame-Only shell session user known = (
  λ _. guard-plain session user known (units "/files") refl,
  Only-append (LetThrough session) (menu session) _ (menu-Only session user known) (
      Only-append (LetThrough session) (top_actions shell session) _
        (
          λ _. tt,
          (
            λ _. tt,
            Only-when (LetThrough session) (has_user session) _ (λ _. (λ _. tt, (λ _. tt, tt))),
          ),
        )
        (Only-when (LetThrough session) session.insecure _ (λ _. (tt, tt)))),
)

-- The guard lets a user who is signed in through to every page that the frame offers her, whatever the
-- frame shows.
pub frame-guard :
    (shell : Shell) (session : Session) (user : User) (path : Text)
    → session.user ≡ some user
    → Offers (frame shell session) (go_to path)
    → guard session (location_of path) ≡ proceed
frame-guard shell session user path known offered =
    Offers-Only (LetThrough session) offered (frame-Only shell session user known)

-- A theme that was switched to is the one that the panel starts with the next time, whatever the system
-- prefers, the document shows it, and switching twice comes back to it.
pub initial_dark-switch_theme :
    (shell : Shell) (system_dark : Bool)
    → let next = (handle_shell switch_theme shell).0 in
      (initial_dark next.stored_theme system_dark ≡ next.dark)
      × (next.dark ≡ not shell.dark)
      × (next.document_theme ≡ next.stored_theme)
      × ((handle_shell switch_theme (handle_shell switch_theme next).0).0 ≡ next)
unfolding handle_shell watch_dark initial_dark
initial_dark-switch_theme shell system_dark = elim (Bool-cases shell.dark) [
  | inl e ↦ simp e (refl, refl, refl, refl)
  | inr e ↦ simp e (refl, refl, refl, refl)
]
