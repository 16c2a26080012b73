-- ===== src/Session/Store.antt =====
-- web/src/store.ts: the session store. The answers of the server are arguments.
use easy_webdav.Prelude.{
  Bool, true, false, Option, none, some, Text, is_truthy, or_else, units, str_eq, if◌then◌else◌, [],
}
use easy_webdav.Api.Problem.{Reply, ok, err}
use easy_webdav.Api.Types.{User, Me, SetupStatus, Settings, setting}

-- `title` is the document's title, which the store sets.
pub record Session : Type 0 where
  pub user : Option User
  pub insecure : Bool
  pub site_name : Text
  pub settings : Settings
  pub setup_required : Bool
  pub loaded : Bool
  pub title : Text

unfoldable pub new_session : Text → Session
new_session title = record {
  user = none;
  insecure = false;
  site_name = units "easy-webdav";
  settings = [];
  setup_required = false;
  loaded = false;
  title = title;
}

-- `user.value?.role === 'admin'`.
unfoldable pub user_is_admin : Option User → Bool
user_is_admin none = false
user_is_admin (some user) = str_eq user.role "admin"

unfoldable pub is_admin : Session → Bool
unfolding user_is_admin
is_admin session = user_is_admin session.user

unfoldable pub set_user : Option User → Session → Session
set_user value session = record session { user = value }

unfoldable pub clear : Session → Session
clear session = record session { user = none }

unfoldable pub apply_settings : Settings → Session → Session
apply_settings values session =
    let name = or_else (setting "site_name" values) session.site_name in
    record session { settings = values; site_name = name; title = name }

unfoldable pub load_settings : Reply Settings → Session → Session
load_settings (ok values) session = apply_settings values session
load_settings (err problem) session = session

-- What the server answers to the requests of `bootstrap`.
pub record BootstrapAnswers : Type 0 where
  pub me : Reply Me
  pub settings : Reply Settings
  pub setup_status : Reply SetupStatus

-- The inner `try` of the fallback.
unfoldable pub apply_status : Reply SetupStatus → Session → Session
apply_status (err problem) session = record session { setup_required = false }
apply_status (ok status) session = record session {
  setup_required = status.required;
  insecure = status.insecure;
  site_name = or_else status.site_name session.site_name;
  title = if is_truthy status.site_name then status.site_name else session.title;
}

unfoldable pub resolve_session : BootstrapAnswers → Session → Session
resolve_session answers session = elim answers.me [
  | ok me ↦
      load_settings answers.settings
        (record session { user = some me.user; insecure = me.insecure; setup_required = false })
  | err problem ↦ apply_status answers.setup_status (record session { user = none })
]

unfoldable pub bootstrap : BootstrapAnswers → Session → Session
bootstrap answers session =
    let resolved = resolve_session answers session in record resolved { loaded = true }

-- `signIn` and `signUp`: the first request throws, or the session is resolved again.
unfoldable pub sign_in : Reply (Unit {0}) → BootstrapAnswers → Session → Session × Reply (Unit {0})
sign_in (ok _) answers session = (bootstrap answers session, ok tt)
sign_in (err problem) answers session = (session, err problem)

unfoldable pub sign_up : Reply (Unit {0}) → BootstrapAnswers → Session → Session × Reply (Unit {0})
sign_up (ok _) answers session = (bootstrap answers session, ok tt)
sign_up (err problem) answers session = (session, err problem)

-- What `signOut` does after its first request, however that ended.
unfoldable pub leave : BootstrapAnswers → Session → Session
leave answers session =
    let cleared = clear session in bootstrap answers (record cleared { setup_required = false })

unfoldable pub sign_out : Reply (Unit {0}) → BootstrapAnswers → Session → Session
sign_out (ok _) answers session = leave answers session
sign_out (err problem) answers session = leave answers session
