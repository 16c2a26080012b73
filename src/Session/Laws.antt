-- ===== src/Session/Laws.antt =====
-- What the session store (web/src/store.ts) and the guard (web/src/router.ts) promise.
use easy_webdav.Prelude.{
  Bool, true, false, ◌≡◌, refl, ◌↔◌, Option, none, some, Text, units, if◌then◌else◌, arith,
  text_eq_iff, ◌≢◌, text_eq, str_eq_iff, Without, ◌∷◌, Bool-cases, ap, leb, inl, ◌&&◌, get_elem?,
  split_slash-join_slash, ◌+◌, text_eq_sound, ◌∙◌, [], sym, inr,
}
use easy_webdav.Api.Problem.{Problem, Reply, ok, err}
use easy_webdav.Api.Types.{User, Me, SetupStatus}
use easy_webdav.Session.Store.{
  Session, user_is_admin, BootstrapAnswers, bootstrap, resolve_session, load_settings,
  apply_settings, apply_status, is_admin, sign_in, sign_up, sign_out, leave,
}
use easy_webdav.Session.Guard.{
  Location, is_public, section_of, is_admin_section, proceed, to_login, redirect_query, guard,
  before_each, target, after_login, ready, RouteName,
}

-- The user whom the server names, if it names one.
abbrev pub user_of : Reply Me → Option User
user_of (ok me) = some me.user
user_of (err problem) = none

abbrev pub required_of : Reply SetupStatus → Bool
required_of (ok status) = status.required
required_of (err problem) = false

-- Whatever the server answers and whatever the store held, `bootstrap` ends with the store loaded, with
-- the user that `me` names and no other, and asks for the first account only if `me` failed and the
-- status says so.
pub bootstrap_lem :
    (answers : BootstrapAnswers) (session : Session)
    → ((bootstrap answers session).loaded ≡ true)
      × ((bootstrap answers session).user ≡ user_of answers.me)
      × (((bootstrap answers session).setup_required ≡ true)
          ↔ ((user_of answers.me ≡ none) × (required_of answers.setup_status ≡ true)))
unfolding bootstrap resolve_session load_settings apply_settings apply_status
bootstrap_lem answers session = ground arith

-- After `signOut` the store holds the user that `me` still names: a failed logout request leaves the
-- user signed in, and the answer to that request makes no difference.
pub user-sign_out :
    (reply : Reply (Unit {0})) (answers : BootstrapAnswers) (session : Session)
    → (sign_out reply answers session).user ≡ user_of answers.me
unfolding sign_out leave
user-sign_out (ok _) answers session = (bootstrap_lem answers _).1
user-sign_out (err problem) answers session = (bootstrap_lem answers _).1

-- A failed sign-in or sign-up leaves the store as it was and throws the problem; a successful one has
-- the user that `me` names, and both throw nothing then.
pub sign_in_lem :
    (reply : Reply (Unit {0})) (answers : BootstrapAnswers) (session : Session)
    → (sign_in reply answers session ≡ sign_up reply answers session)
      × ((p : Problem) → reply ≡ err p → sign_in reply answers session ≡ (session, err p))
      × (reply ≡ ok tt
          → ((sign_in reply answers session).0.user ≡ user_of answers.me)
            × ((sign_in reply answers session).1 ≡ ok tt))
unfolding sign_in sign_up
sign_in_lem (ok _) answers session =
    (refl, λ p e. cc, λ e. ((bootstrap_lem answers session).1, refl))
sign_in_lem (err problem) answers session = (refl, λ p e. ground arith, λ e. cc)

-- The pages of the administration, by the names of their routes.
abbrev pub is_admin_page : RouteName → Bool
is_admin_page RouteName.users = true
is_admin_page RouteName.overview = true
is_admin_page RouteName.settings = true
is_admin_page _ = false

-- The first section of the paths of a route, as the table of the routes spells it.
abbrev pub section_name : RouteName → Text
section_name RouteName.login = units "login"
section_name RouteName.user_files = units "files"
section_name RouteName.files = units "files"
section_name RouteName.users = units "users"
section_name RouteName.overview = units "overview"
section_name RouteName.settings = units "settings"
section_name RouteName.account = units "account"

abbrev pub IsSpelled : Location → Type 0
IsSpelled to = section_of to.path ≡ some (section_name to.name)

-- Who is to see a page: the login page whoever is not signed in, any other page a user, and the pages of
-- the administration an administrator.
abbrev pub Allowed : Option User → RouteName → Type 0
Allowed none name = name ≡ RouteName.login
Allowed (some user) name =
    (name ≢ RouteName.login) × (is_admin_page name ≡ true → user.role ≡ "admin")

if_true {ℓ} : {A : Type ℓ} (b : Bool) (x y : A) → b ≡ true → (if b then x else y) ≡ x
if_true true x y h = refl
if_true false x y h = cc

ready-loaded :
    (answers : BootstrapAnswers) (session : Session) → (ready answers session).loaded ≡ true
unfolding ready bootstrap
ready-loaded answers session = ground arith

ready-of_loaded :
    (answers : BootstrapAnswers) (session : Session)
    → session.loaded ≡ true
    → ready answers session ≡ session
unfolding ready
ready-of_loaded answers session h = if_true session.loaded session (bootstrap answers session) h

guard_at :
    (session : Session) (user : Option User) (name : RouteName) (full_path path : Text)
    → session.user ≡ user
    → section_of path ≡ some (section_name name)
    → (guard session (record { name = name; path = path; full_path = full_path }) ≡ proceed)
      ↔ Allowed user name
unfolding guard is_admin user_is_admin is_admin_section
guard_at session none RouteName.login full_path path e spelled = ground (arith, e, spelled)
guard_at session none RouteName.user_files full_path path e spelled = ground (arith, e, spelled)
guard_at session none RouteName.files full_path path e spelled = ground (arith, e, spelled)
guard_at session none RouteName.users full_path path e spelled = ground (arith, e, spelled)
guard_at session none RouteName.overview full_path path e spelled = ground (arith, e, spelled)
guard_at session none RouteName.settings full_path path e spelled = ground (arith, e, spelled)
guard_at session none RouteName.account full_path path e spelled = ground (arith, e, spelled)
guard_at session (some user) RouteName.login full_path path e spelled =
    ground (arith, e, spelled, str_eq_iff user.role "admin")
guard_at session (some user) RouteName.user_files full_path path e spelled =
    ground (arith, e, spelled, str_eq_iff user.role "admin")
guard_at session (some user) RouteName.files full_path path e spelled =
    ground (arith, e, spelled, str_eq_iff user.role "admin")
guard_at session (some user) RouteName.users full_path path e spelled =
    ground (arith, e, spelled, str_eq_iff user.role "admin")
guard_at session (some user) RouteName.overview full_path path e spelled =
    ground (arith, e, spelled, str_eq_iff user.role "admin")
guard_at session (some user) RouteName.settings full_path path e spelled =
    ground (arith, e, spelled, str_eq_iff user.role "admin")
guard_at session (some user) RouteName.account full_path path e spelled =
    ground (arith, e, spelled, str_eq_iff user.role "admin")

guard-Allowed :
    (session : Session) (to : Location)
    → IsSpelled to
    → (guard session to ≡ proceed) ↔ Allowed session.user to.name
guard-Allowed session to spelled =
    guard_at session session.user to.name to.full_path to.path refl spelled

-- The guard leaves the store loaded; and it lets a navigation to a path that is spelled as the table of
-- the routes spells it through exactly if the page is one for the user of that store: the login page
-- without a user, any other page with one, and a page of the administration with an administrator.
pub before_each-Allowed :
    (answers : BootstrapAnswers) (session : Session) (to : Location)
    → IsSpelled to
    → ((before_each answers session to).0.loaded ≡ true)
      × (((before_each answers session to).1 ≡ proceed)
          ↔ Allowed (before_each answers session to).0.user to.name)
unfolding before_each
before_each-Allowed answers session to spelled =
    (ready-loaded answers session, guard-Allowed (ready answers session) to spelled)

guard-target :
    (session : Session) (to : Location) → guard session (target (guard session to) to) ≡ proceed
unfolding guard target
guard-target session to = ground arith

-- A redirection is never redirected in its turn: once the store is loaded, the location that the guard
-- sends a navigation to is let through, with the store unchanged.
pub before_each-target :
    (answers later : BootstrapAnswers) (session : Session) (to : Location)
    → let first = before_each answers session to in
      before_each later first.0 (target first.1 to) ≡ (first.0, proceed)
unfolding before_each
before_each-target answers later session to =
    let same = ready-of_loaded later (ready answers session) (ready-loaded answers session) in
    rw (same, guard-target (ready answers session) to)

-- Signing in leads back to the page that was asked for: the full path of every page that the guard
-- keeps from a visitor without a user is where the login page goes to afterwards.
pub after_login-guard :
    (session : Session) (to : Location) (redirect : Option Text)
    → guard session to ≡ to_login redirect
    → after_login redirect ≡ to.full_path
unfolding guard redirect_query after_login
after_login-guard session to redirect e = ground (arith, text_eq_iff to.full_path (units "/files"))

admin-is_public : (name : RouteName) → is_admin_page name ≡ true → is_public name ≡ false
admin-is_public RouteName.login page = cc
admin-is_public RouteName.user_files page = refl
admin-is_public RouteName.files page = refl
admin-is_public RouteName.users page = refl
admin-is_public RouteName.overview page = refl
admin-is_public RouteName.settings page = refl
admin-is_public RouteName.account page = refl

-- Letters of the alphabet in lower case.
abbrev pub lower : Text → Text
lower [] = []
lower (c ∷ s) = (if leb b'A' c && leb c b'Z' then c + 32 else c) ∷ lower s

-- A section that is another spelling of a word is none of those that are spelled in lower case.
text_eq-other : (s v w : Text) → lower v ≡ v → lower s ≡ w → s ≢ w → text_eq s v ≡ false
text_eq-other s v w small e differs = elim (Bool-cases (text_eq s v)) [
  | inl same ↦
      let equal = text_eq_sound s v same in
      absurd (differs (equal ∙ sym small ∙ ap lower (sym equal) ∙ e))
  | inr other ↦ other
]

section_of-slash : (s : Text) → Without b'/' s → section_of (b'/' ∷ s) ≡ some s
unfolding section_of
section_of-slash s h =
    ap (λ parts. get_elem? parts 1) (split_slash-join_slash [] (s ∷ []) tt (h, tt))

-- The sections are compared as they are spelled, while the router matches paths without regard to case.
-- The guard lets every user who is signed in through to a page of the administration whose path has the
-- section in another spelling, such as `/Users`.
pub guard_ignores_case :
    (session : Session) (user : User) (name : RouteName) (s full_path : Text)
    → session.user ≡ some user
    → is_admin_page name ≡ true
    → Without b'/' s
    → lower s ≡ section_name name
    → s ≢ section_name name
    → guard session (record { name = name; path = b'/' ∷ s; full_path = full_path }) ≡ proceed
unfolding guard is_admin_section
guard_ignores_case session user name s full_path e page h spelled differs =
    let not_users = text_eq-other s (units "users") (section_name name) refl spelled differs in
    let not_overview =
      text_eq-other s (units "overview") (section_name name) refl spelled differs in
    let not_settings =
      text_eq-other s (units "settings") (section_name name) refl spelled differs in
    let public : is_public name ≡ false = admin-is_public name page in
    rw (e, public, section_of-slash s h, not_users, not_overview, not_settings) refl
