-- ===== src/Session/Tests.antt =====
-- The session store and the guard (web/src/store.ts, web/src/router.ts) at concrete inputs.
use easy_webdav.Prelude.{
  true, false, ◌≡◌, refl, [], ◌∷◌, none, some, units, ◌↔◌, Without, ◌≢◌, ap, arith, text_eq,
}
use easy_webdav.Api.Problem.{Problem, other, Reply, ok, err}
use easy_webdav.Api.Types.{User, setting}
use easy_webdav.Session.Store.{
  Session, BootstrapAnswers, bootstrap, resolve_session, load_settings, apply_settings,
}
use easy_webdav.Session.Guard.{users, Location, proceed, guard, redirect_query, before_each, target}
use easy_webdav.Session.Login.{submit_login, submit_login-guard}
use easy_webdav.Session.Guard.{files, to_login, section_of, is_admin_section}
use easy_webdav.Session.Laws.{
  Allowed, user_of, required_of, bootstrap_lem, before_each-Allowed, before_each-target,
  guard_ignores_case,
}

abbrev pub alice : User
alice = record {
  id = 2;
  username = units "alice";
  role = "user";
  root_dir = units "/alice";
  permission = "readwrite";
  quota = 0;
  disabled = false;
}

abbrev refused : Problem
refused = other (units "refused")

abbrev signed_in : BootstrapAnswers
signed_in = record {
  me = ok (record { user = alice; insecure = false });
  settings = ok (("site_name", units "Files") ∷ []);
  setup_status = err refused;
}

abbrev first_start : BootstrapAnswers
first_start = record {
  me = err refused;
  settings = err refused;
  setup_status = ok (record { required = true; insecure = true; site_name = [] });
}

abbrev blank : Session
blank = record {
  user = none;
  insecure = false;
  site_name = units "easy-webdav";
  settings = [];
  setup_required = false;
  loaded = false;
  title = [];
}

abbrev to_users : Location
to_users = record { name = users; path = units "/users"; full_path = units "/users?page=2" }

site_name_test : (bootstrap signed_in blank).title ≡ units "Files"
unfolding bootstrap resolve_session load_settings apply_settings setting
site_name_test = refl

bootstrap_lem_example :
    ((bootstrap first_start blank).loaded ≡ true)
    × ((bootstrap first_start blank).user ≡ none)
    × (((bootstrap first_start blank).setup_required ≡ true)
        ↔ ((user_of first_start.me ≡ none) × (required_of first_start.setup_status ≡ true)))
bootstrap_lem_example = bootstrap_lem first_start blank

abbrev refused_login : Reply (Unit {0})
refused_login = err refused

before_each-Allowed_example :
    ((before_each signed_in blank to_users).0.loaded ≡ true)
    × (((before_each signed_in blank to_users).1 ≡ proceed)
        ↔ Allowed (before_each signed_in blank to_users).0.user users)
unfolding section_of
before_each-Allowed_example = before_each-Allowed signed_in blank to_users refl

before_each-target_example :
    before_each signed_in
      (before_each first_start blank to_users).0
      (target (before_each first_start blank to_users).1 to_users)
    ≡ ((before_each first_start blank to_users).0, proceed)
before_each-target_example = before_each-target first_start signed_in blank to_users

-- The server knows the user once she has signed in.
abbrev alice_in : BootstrapAnswers
alice_in = record {
  me = ok (record { user = alice; insecure = false });
  settings = ok [];
  setup_status = err refused;
}

abbrev to_music : Location
to_music = record {
  name = files;
  path = units "/files/music";
  full_path = units "/files/music?x=1";
}

music_kept : guard blank to_music ≡ to_login (some (units "/files/music?x=1"))
unfolding guard redirect_query
music_kept = refl

submit_login-guard_example :
    let after = submit_login units (some (units "/files/music?x=1")) (ok tt) alice_in blank in
    (after.pushed ≡ some (units "/files/music?x=1")) × (guard after.session to_music ≡ proceed)
unfolding is_admin_section section_of
submit_login-guard_example =
    submit_login-guard units blank blank to_music (some (units "/files/music?x=1")) alice_in
      (record { user = alice; insecure = false }) music_kept refl refl

abbrev with_alice : Session
with_alice = record blank { user = some alice; loaded = true }

Users-Without : Without b'/' (units "Users")
Users-Without = (
  λ e. absurd (omega arith),
  (
    λ e. absurd (omega arith),
    (λ e. absurd (omega arith), (λ e. absurd (omega arith), (λ e. absurd (omega arith), tt))),
  ),
)

false-true : false ≡ true → ⊥
false-true e = cc

Users-ne : units "Users" ≢ units "users"
Users-ne = λ e. false-true (ap (λ s. text_eq s (units "users")) e)

guard_ignores_case_example :
    guard with_alice (record { name = users; path = units "/Users"; full_path = units "/Users" })
    ≡ proceed
guard_ignores_case_example =
    guard_ignores_case with_alice alice users (units "Users") (units "/Users") refl refl
      Users-Without refl Users-ne
