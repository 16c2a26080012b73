-- ===== src/Admin/Tests.antt =====
-- The views of the administration (web/src/views) at concrete inputs.
use mathlib.Core.List.{Perm}
use easy_webdav.Admin.Overview.Largest.{UsesNoMore, Falling, largest_lem}
use easy_webdav.Prelude.{◌++◌, ◌⊎◌, All, drop, length, decimal, is_truthy}
use easy_webdav.Floats.FixedPoint.{thousandths}
use easy_webdav.Screen.{Offers, Offers-at, pressed}
use easy_webdav.Api.Types.{Settings, setting}
use easy_webdav.Session.Store.{new_session}
use easy_webdav.Format.Quota.{typed}
use easy_webdav.Admin.Fields.{alerts_of}
use easy_webdav.Admin.Users.Template.{
  removes, user_usage, user_buttons, user_row, columns, users_heading, users_screen,
}
use easy_webdav.Admin.Users.Buttons.{KeepsAdmin, users_screen-KeepsAdmin}
use easy_webdav.Admin.Settings.{new_settings, saved_values, show_settings, save_settings}
use easy_webdav.Admin.Settings.RoundTrip.{restated, save_settings-show_settings}
use easy_webdav.Prelude.{
  is_space, trim_start, trim_end, trim, ◌≤◌, ◌≡◌, refl, Bool, true, false, List, [], ◌∷◌, none,
  some, units, String, arith, ℕ,
}
use easy_webdav.Api.Problem.{ok, err, other}
use easy_webdav.Api.Types.{User, UserUsage}
use easy_webdav.Admin.Overview.{OverviewView, total_used, place_item, by_used, largest, recalculate}
use easy_webdav.Admin.Forms.{update_user}
use easy_webdav.Admin.Users.{
  UsersView, is_active_admin, active_admins, is_last_admin, open_dialog, save_request,
}
use easy_webdav.Admin.UserForm.{save_request-open_dialog}
use easy_webdav.Admin.Account.{AccountView, change_password, begin_change, finish_change}

abbrev account : String → String → Bool → User
account name role disabled = record {
  id = 4;
  username = units name;
  role = role;
  root_dir = units "/data";
  permission = "readwrite";
  quota = 4096;
  disabled = disabled;
}

-- The one active administrator, one who is disabled, and a user.
abbrev everyone : List User
everyone =
    account "ann" "admin" false ∷ account "bob" "admin" true ∷ account "eve" "user" false ∷ []

last : is_last_admin everyone (account "ann" "admin" false) ≡ true
unfolding is_last_admin active_admins is_active_admin
last = refl

not_last : is_last_admin everyone (account "bob" "admin" true) ≡ false
unfolding is_last_admin active_admins is_active_admin
not_last = refl

one_active : 1 ≤ active_admins (account "ann" "admin" false ∷ account "bob" "admin" true ∷ [])
unfolding active_admins is_active_admin
one_active = omega arith

abbrev closed : UsersView
closed = record {
  users = [];
  usage = none;
  loading = false;
  error = [];
  notice = [];
  dialog = false;
  editing = none;
  password_dialog = false;
  password_target = none;
  password_value = [];
  form = record {
    username = [];
    password = [];
    root_dir = [];
    permission = "";
    quota_amount = typed [];
    quota_unit = 1;
    disabled = false;
  };
}

name_trimmed : trim (units "eve") ≡ units "eve"
unfolding trim trim_start trim_end is_space
name_trimmed = refl

root_trimmed : trim (units "/data") ≡ units "/data"
unfolding trim trim_start trim_end is_space
root_trimmed = refl

save_request-open_dialog_example :
    save_request (open_dialog (some (account "eve" "user" false)) 0 "" closed)
    ≡ some (
        update_user 4 (record {
          username = units "eve";
          permission = "readwrite";
          quota = 4096;
          disabled = false;
          root_dir = some (units "/data");
          password = none;
        }))
save_request-open_dialog_example =
    save_request-open_dialog (account "eve" "user" false) 0 "" closed refl refl name_trimmed refl
      root_trimmed refl

abbrev filled_in : AccountView
filled_in = record {
  current_password = units "old";
  new_password = units "longer1";
  error = [];
  notice = [];
  busy = false;
}

too_short : (change_password units (ok tt) filled_in).error ≡ units "passwordTooShort"
unfolding change_password begin_change
too_short = refl

changed :
    (change_password units (ok tt) (record filled_in { new_password = units "longer12" })).notice
    ≡ units "saved"
unfolding change_password begin_change finish_change
changed = refl

abbrev usage_by : String → ℕ → UserUsage
usage_by name used = record { user = account name "user" false; used = used }

-- The larger come first, and those that use the same stay in their order.
by_usage :
    largest (usage_by "ann" 3 ∷ usage_by "bob" 7 ∷ usage_by "eve" 3 ∷ [])
    ≡ usage_by "bob" 7 ∷ usage_by "ann" 3 ∷ usage_by "eve" 3 ∷ []
unfolding largest by_used place_item
by_usage = refl

-- Eleven users, of whom the last uses least.
abbrev eleven : List UserUsage
eleven =
    usage_by "a" 5
    ∷ usage_by "b" 9
    ∷ usage_by "c" 2
    ∷ usage_by "d" 9
    ∷ usage_by "e" 7
    ∷ usage_by "f" 3
    ∷ usage_by "g" 8
    ∷ usage_by "h" 4
    ∷ usage_by "i" 6
    ∷ usage_by "j" 2
    ∷ usage_by "k" 1
    ∷ []

largest_lem_example :
    let shown = largest eleven in
    let left_out = drop 10 (by_used eleven) in
    ((length shown ≡ 10) ⊎ ((length shown ≤ 10) × (left_out ≡ [])))
    × Perm (shown ++ left_out) eleven
    × Falling shown
    × All (λ item. All (UsesNoMore item) left_out) shown
largest_lem_example = largest_lem eleven

in_all : total_used (usage_by "ann" 3 ∷ usage_by "bob" 7 ∷ []) ≡ 10
unfolding total_used
in_all = refl

abbrev not_loaded : OverviewView
not_loaded = record { overview = none; error = []; notice = []; busy = true; loading = true }

-- A failure to read the totals again is not shown.
recalculated : (recalculate units (ok tt) (err (other (units "offline"))) not_loaded).error ≡ []
unfolding recalculate
recalculated = refl

abbrev listed : UsersView
listed = record closed { users = everyone }

some_admin : 1 ≤ active_admins listed.users
unfolding active_admins is_active_admin
some_admin = omega arith

-- The button that deletes the second user.
delete_offered : Offers (users_screen thousandths listed) (removes (account "bob" "admin" true))
unfolding users_screen users_heading alerts_of columns user_row user_usage user_buttons
    is_last_admin active_admins is_active_admin
delete_offered = Offers-at _ 31 _ _ refl pressed

users_screen-KeepsAdmin_example : KeepsAdmin everyone (removes (account "bob" "admin" true))
users_screen-KeepsAdmin_example =
    users_screen-KeepsAdmin thousandths listed some_admin (removes (account "bob" "admin" true))
      delete_offered

abbrev site_values : Settings
site_values =
    ("site_name", units "Home")
    ∷ ("default_quota", units "2048")
    ∷ ("default_permission", units "read")
    ∷ []

quota_read : setting "default_quota" site_values ≡ decimal 2048
unfolding setting decimal
quota_read = refl

name_set :
    (is_truthy (setting "site_name" site_values) ≡ true)
    × (is_truthy (setting "default_permission" site_values) ≡ true)
unfolding setting
name_set = (refl, refl)

save_settings-show_settings_example :
    let loaded = show_settings units (ok site_values) (new_session []) new_settings in
    let after = save_settings units (ok tt) (new_session []) loaded in
    (saved_values loaded ≡ restated site_values)
    × (after.0.settings ≡ restated site_values)
    × (after.0.site_name ≡ setting "site_name" site_values)
    × (after.0.title ≡ setting "site_name" site_values)
    × (after.1 ≡ record loaded { error = []; notice = units "saved"; busy = false })
save_settings-show_settings_example =
    save_settings-show_settings units (new_session []) new_settings site_values 2048 quota_read refl
      name_set.0 name_set.1
