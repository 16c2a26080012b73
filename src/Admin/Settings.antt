-- ===== src/Admin/Settings.antt =====
-- web/src/views/SettingsView.vue: the settings of the site.
pub mod Template
pub mod RoundTrip
use easy_webdav.Prelude.{
  ℕ, Bool, true, false, List, [], ◌∷◌, Option, none, some, Text, units, String, or_else, decimal,
  whole_number,
}
use easy_webdav.Api.Problem.{Problem, Reply, ok, err}
use easy_webdav.Api.Types.{Settings, setting}
use easy_webdav.Format.Quota.{Amount, tenths, split_quota, quota_to_bytes, gb}
use easy_webdav.Session.Store.{Session, apply_settings}
use easy_webdav.Admin.{shown_error}

pub record SettingsView : Type 0 where
  pub site_name : Text
  pub quota_amount : Amount
  pub quota_unit : ℕ
  pub permission : Text
  pub error : Text
  pub notice : Text
  pub busy : Bool

unfoldable pub new_settings : SettingsView
new_settings = record {
  site_name = [];
  quota_amount = tenths 0;
  quota_unit = gb;
  permission = units "readwrite";
  error = [];
  notice = [];
  busy = false;
}

-- `Number(values.default_quota || 0)`. The server keeps a whole number there; what is no number is a quota
-- of nothing for `splitQuota`.
unfoldable pub quota_of : Settings → ℕ
quota_of values = elim (whole_number (or_else (setting "default_quota" values) (units "0"))) [
  | none ↦ 0
  | some n ↦ n
]

-- The values that `save` sends.
unfoldable pub saved_values : SettingsView → Settings
saved_values view =
    ("site_name", view.site_name)
    ∷ ("default_quota", decimal (quota_to_bytes view.quota_amount view.quota_unit))
    ∷ ("default_permission", view.permission)
    ∷ []

-- `save` up to its request.
unfoldable pub begin_save : SettingsView → SettingsView
begin_save view = record view { busy = true }

module _ (t : String → Text) where
  unfoldable pub fail_settings : Problem → SettingsView → SettingsView
  fail_settings problem view = record view { notice = []; error = shown_error t problem }

  -- `load`, with the answer to its request.
  unfoldable pub show_settings : Reply Settings → Session → SettingsView → SettingsView
  show_settings (ok values) session view =
      let quota = split_quota (quota_of values) in
      record view {
        site_name = or_else (setting "site_name" values) session.site_name;
        quota_amount = tenths quota.amount;
        quota_unit = quota.unit;
        permission = or_else (setting "default_permission" values) (units "readwrite");
      }
  show_settings (err problem) session view = fail_settings problem view

  -- `save` from the answer on.
  unfoldable pub finish_save :
      Settings → Reply (Unit {0}) → Session → SettingsView → Session × SettingsView
  finish_save values (ok _) session view =
      (apply_settings values session, record view { error = []; notice = t "saved"; busy = false })
  finish_save values (err problem) session view =
      (session, record (fail_settings problem view) { busy = false })

  unfoldable pub save_settings : Reply (Unit {0}) → Session → SettingsView → Session × SettingsView
  save_settings done session view = finish_save (saved_values view) done session (begin_save view)
