-- ===== src/Admin/Forms.antt =====
-- web/src/views/UsersView.vue: the form of a user, and the requests that are made from it.
use easy_webdav.Prelude.{
  trim, ℕ, Bool, false, [], Option, none, some, Text, String, str_eq, is_truthy, if◌then◌else◌,
}
use easy_webdav.Api.Types.{User}
use easy_webdav.Format.Quota.{Amount, tenths, split_quota, quota_to_bytes}

-- `form`.
pub record Form : Type 0 where
  pub username : Text
  pub password : Text
  pub root_dir : Text
  pub permission : String
  pub quota_amount : Amount
  pub quota_unit : ℕ
  pub disabled : Bool

-- What the dialog starts with, of a user or of the settings. `default_quota` is the number that the
-- settings hold.
unfoldable pub default_permission : String → String
default_permission setting = if str_eq setting "" then "readwrite" else setting

unfoldable pub edit_form : User → String → Form
edit_form user setting =
    let quota = split_quota user.quota in
    record {
      username = user.username;
      password = [];
      root_dir = user.root_dir;
      permission =
          if str_eq user.permission "" then default_permission setting else user.permission;
      quota_amount = tenths quota.amount;
      quota_unit = quota.unit;
      disabled = user.disabled;
    }

unfoldable pub new_form : ℕ → String → Form
new_form default_quota setting =
    let quota = split_quota default_quota in
    record {
      username = [];
      password = [];
      root_dir = [];
      permission = default_permission setting;
      quota_amount = tenths quota.amount;
      quota_unit = quota.unit;
      disabled = false;
    }

-- The body of a request that creates or changes a user.
pub record UserBody : Type 0 where
  pub username : Text
  pub permission : String
  pub quota : ℕ
  pub disabled : Bool
  pub root_dir : Option Text
  pub password : Option Text

pub data UserRequest : Type 0 where
  create_user : UserBody → UserRequest
  update_user : ℕ → UserBody → UserRequest
  delete_user : ℕ → UserRequest
  reset_password : ℕ → Text → UserRequest

unfoldable pub trimmed_root : Text → Option Text
trimmed_root root_dir = if is_truthy (trim root_dir) then some (trim root_dir) else none

unfoldable pub form_body : Form → Option Text → UserBody
form_body form password = record {
  username = trim form.username;
  permission = form.permission;
  quota = quota_to_bytes form.quota_amount form.quota_unit;
  disabled = form.disabled;
  root_dir = trimmed_root form.root_dir;
  password = password;
}
