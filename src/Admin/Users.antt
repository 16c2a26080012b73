-- ===== src/Admin/Users.antt =====
-- web/src/views/UsersView.vue: the users, and the requests that change them.
pub mod Calls
pub mod Template
pub mod Buttons
use easy_webdav.Prelude.{
  trim, ℕ, ◌+◌, Bool, true, false, ◌&&◌, not, leb, ltb, List, [], ◌∷◌, ◌++◌, Option, none, some,
  Text, units, String, str_eq, is_truthy, length, ◌==◌, if◌then◌else◌,
}
use easy_webdav.Api.Problem.{Problem, other, Reply, ok, err}
use easy_webdav.Api.Types.{User, UserUsage, UsageOverview}
use easy_webdav.Format.Quota.{Amount, tenths, split_quota, quota_to_bytes}
use easy_webdav.Admin.{shown_error}
use easy_webdav.Admin.Forms.{
  Form, default_permission, edit_form, new_form, UserBody, UserRequest, create_user, update_user,
  delete_user, reset_password, trimmed_root, form_body,
}

pub record UsersView : Type 0 where
  pub users : List User
  pub usage : Option UsageOverview
  pub loading : Bool
  pub error : Text
  pub notice : Text
  pub dialog : Bool
  pub editing : Option User
  pub password_dialog : Bool
  pub password_target : Option User
  pub password_value : Text
  pub form : Form

-- `user.role === 'admin' && !user.disabled`.
unfoldable pub is_active_admin : User → Bool
is_active_admin user = str_eq user.role "admin" && not user.disabled

unfoldable pub active_admins : List User → ℕ
active_admins [] = 0
active_admins (user ∷ users) =
    let rest = active_admins users in if is_active_admin user then 1 + rest else rest

unfoldable pub is_last_admin : List User → User → Bool
is_last_admin users user = is_active_admin user && leb (active_admins users) 1

unfoldable pub used_in : ℕ → List UserUsage → ℕ
used_in id [] = 0
used_in id (item ∷ users) =
    let rest = used_in id users in if item.user.id == id then item.used else rest

unfoldable pub used_for : Option UsageOverview → User → ℕ
used_for none user = 0
used_for (some overview) user = used_in user.id overview.users

-- `load` up to its requests.
unfoldable pub begin_load_users : UsersView → UsersView
begin_load_users view = record view { loading = true }

module _ (t : String → Text) where
  unfoldable pub fail_users : Problem → UsersView → UsersView
  fail_users problem view = record view { notice = []; error = shown_error t problem }

  -- `load` from the answers on: `Promise.all` answers with both or with a problem.
  unfoldable pub finish_load_users : Reply (List User × UsageOverview) → UsersView → UsersView
  finish_load_users (ok (users, overview)) view = record view {
    users = users;
    usage = some overview;
    error = [];
    loading = false;
  }
  finish_load_users (err problem) view = record (fail_users problem view) { loading = false }

  unfoldable pub load_users : Reply (List User × UsageOverview) → UsersView → UsersView
  load_users reply view = finish_load_users reply (begin_load_users view)

unfoldable pub succeed_users : Text → UsersView → UsersView
succeed_users message view = record view { error = []; notice = message }

unfoldable pub open_dialog : Option User → ℕ → String → UsersView → UsersView
open_dialog none default_quota setting view = record view {
  editing = none;
  form = new_form default_quota setting;
  dialog = true;
}
open_dialog (some user) default_quota setting view = record view {
  editing = some user;
  form = edit_form user setting;
  dialog = true;
}

-- The request that `save` sends; none if the form is not valid. `quotaToBytes` gives nothing below zero,
-- so that the third of the tests never fails.
unfoldable pub save_request : UsersView → Option UserRequest
save_request view =
    let form = view.form in
    if is_truthy (trim form.username)
    then elim view.editing [
      | some user ↦ some (update_user user.id (form_body form none))
      | none ↦
          if ltb (length form.password) 8
          then none
          else some (create_user (form_body form (some form.password)))
    ]
    else none

-- `String(new Error(message))`.
abbrev pub error_of : Text → Problem
error_of message = other (units "Error: " ++ message)

-- The answers to the request of an operation and to those of the load that follows.
pub record UserAnswers : Type 0 where
  pub done : Reply (Unit {0})
  pub loaded : Reply (List User × UsageOverview)

module _ (t : String → Text) where
  unfoldable pub save_user : UserAnswers → UsersView → UsersView
  save_user answers view = elim (save_request view) [
    | none ↦ fail_users t (error_of (t "invalidUserForm")) view
    | some request ↦ elim answers.done [
      | err problem ↦ fail_users t problem view
      | ok _ ↦
          succeed_users (t "saved") (load_users t answers.loaded (record view { dialog = false }))
    ]
  ]

  unfoldable pub submit_password : Reply (Unit {0}) → UsersView → UsersView
  submit_password done view =
      if ltb (length view.password_value) 8
      then fail_users t (error_of (t "passwordTooShort")) view
      else elim done [
        | err problem ↦ fail_users t problem view
        | ok _ ↦ succeed_users (t "saved") (record view { password_dialog = false })
      ]

  -- `toggleUser` and a confirmed `removeUser` after their request.
  unfoldable pub change_user : UserAnswers → UsersView → UsersView
  change_user answers view = elim answers.done [
    | err problem ↦ fail_users t problem view
    | ok _ ↦ load_users t answers.loaded view
  ]

unfoldable pub open_password : User → UsersView → UsersView
open_password user view = record view {
  password_target = some user;
  password_value = [];
  password_dialog = true;
}

unfoldable pub toggle_request : User → UserRequest
toggle_request user = update_user user.id (record {
  username = user.username;
  permission = user.permission;
  quota = user.quota;
  disabled = not user.disabled;
  root_dir = some user.root_dir;
  password = none;
})

-- `window.confirm` is asked first.
unfoldable pub remove_request : Bool → User → Option UserRequest
remove_request confirmed user = if confirmed then some (delete_user user.id) else none
