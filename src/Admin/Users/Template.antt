-- ===== src/Admin/Users/Template.antt =====
-- web/src/views/UsersView.vue, lines 36-69 and 176-230: the table of the users, the dialogs, and what
-- their controls do.
use easy_webdav.Prelude.{
  ℕ, ◌+◌, Bool, true, false, not, List, [], ◌∷◌, ◌++◌, Option, none, some, Text, units, String,
  decimal, length, ltb, if◌then◌else◌, str_eq, ◌==◌,
}
use easy_webdav.Floats.{Floats}
use easy_webdav.Api.Problem.{other}
use easy_webdav.Api.Types.{User}
use easy_webdav.Format.Quota.{typed}
use easy_webdav.Format.Size.{format_size}
use easy_webdav.Format.Usage.{usage_percent}
use easy_webdav.Screen.{
  message, filled, raw, Widget, shows, bar, button, field, choice, when, for_each,
}
use easy_webdav.Admin.Fields.{alerts_of, permission_options, quota_fields}
use easy_webdav.Admin.Forms.{Form, UserRequest, reset_password}
use easy_webdav.Admin.Users.{
  UsersView, is_last_admin, used_for, fail_users, error_of, open_dialog, open_password,
  save_request, toggle_request, remove_request,
}

pub data UsersEvent : Type 0 where
  close_error close_notice add_user cancel_form save_form cancel_password save_password : UsersEvent
  browses edits resets toggles removes : User → UsersEvent
  type_username type_password type_root type_amount type_new_password : Text → UsersEvent
  choose_permission : String → UsersEvent
  choose_unit : ℕ → UsersEvent
  choose_status : Bool → UsersEvent

-- `activeCount`.
unfoldable pub active_count : List User → ℕ
active_count [] = 0
active_count (user ∷ users) =
    let rest = active_count users in if user.disabled then rest else 1 + rest

-- `targetUser?.username || ''`.
abbrev pub target_name : Option User → Text
target_name none = []
target_name (some user) = user.username

abbrev pub is_editing : UsersView → Bool
is_editing view = elim view.editing [ none ↦ false | some _ ↦ true ]

-- The cells of a row, one for each column.
unfoldable pub user_usage : Floats → ℕ → User → List (Widget UsersEvent)
user_usage floats used user =
    let limited = not (user.quota == 0) in
    let share = usage_percent floats used user.quota in
    shows (
      raw (format_size used ++ units " / ")
      ∷ (if limited then raw (format_size user.quota) else message "unlimited")
      ∷ raw (units " · " ++ (decimal share ++ units "%"))
      ∷ [])
    ∷ when limited (bar share ∷ [])

unfoldable pub user_buttons : Bool → User → List (Widget UsersEvent)
user_buttons last user =
    button (message "browseFiles" ∷ []) true (browses user)
    ∷ button (message "edit" ∷ []) true (edits user)
    ∷ button (message "resetPassword" ∷ []) true (resets user)
    ∷ button (message (if user.disabled then "enable" else "disable") ∷ []) (not last)
        (toggles user)
    ∷ button (message "delete" ∷ []) (not last) (removes user)
    ∷ []

unfoldable pub user_row : Floats → UsersView → User → List (Widget UsersEvent)
user_row floats view user =
    shows (raw user.username ∷ [])
    ∷ shows (raw user.root_dir ∷ [])
    ∷ shows (message (if str_eq user.permission "read" then "readOnly" else "readWrite") ∷ [])
    ∷ shows (message (if user.disabled then "disabled" else "enabled") ∷ [])
    ∷ (user_usage floats (used_for view.usage user) user
        ++ user_buttons (is_last_admin view.users user) user)

unfoldable pub columns : List (Widget UsersEvent)
columns =
    shows (message "username" ∷ [])
    ∷ shows (message "rootDir" ∷ [])
    ∷ shows (message "permission" ∷ [])
    ∷ shows (message "status" ∷ [])
    ∷ shows (message "usage" ∷ [])
    ∷ shows (message "actions" ∷ [])
    ∷ []

-- Both dialogs have the button of the platform that closes them.
unfoldable pub form_dialog : UsersView → List (Widget UsersEvent)
form_dialog view = when view.dialog (
    shows (message (if is_editing view then "editUser" else "addUser") ∷ [])
    ∷ button [] true cancel_form
    ∷ field (message "username" ∷ []) view.form.username type_username
    ∷ (when (not (is_editing view))
          (field (message "password" ∷ []) view.form.password type_password ∷ [])
        ++ (field (message "rootDir" ∷ []) view.form.root_dir type_root
            ∷ choice (message "permission" ∷ [])
                (permission_options (choose_permission "read") (choose_permission "readwrite"))
            ∷ (quota_fields "quota" view.form.quota_amount view.form.quota_unit type_amount
                  choose_unit
                ++ (when (is_editing view) (
                      choice (message "status" ∷ []) (
                        (message "enabled" ∷ [], choose_status false)
                        ∷ (message "disabled" ∷ [], choose_status true)
                        ∷ [])
                      ∷ [])
                    ++ (button (message "cancel" ∷ []) true cancel_form
                        ∷ button (message "save" ∷ []) true save_form
                        ∷ []))))))

unfoldable pub password_shown : UsersView → List (Widget UsersEvent)
password_shown view = when view.password_dialog (
    shows (message "resetPassword" ∷ [])
    ∷ button [] true cancel_password
    ∷ shows (filled "newPasswordFor" (target_name view.password_target) ∷ [])
    ∷ field [] view.password_value type_new_password
    ∷ button (message "cancel" ∷ []) true cancel_password
    ∷ button (message "save" ∷ []) true save_password
    ∷ [])

unfoldable pub users_heading : UsersView → List (Widget UsersEvent)
users_heading view =
    shows (message "users" ∷ [])
    ∷ shows (message "users" ∷ [])
    ∷ shows (
        message "activeUsers"
        ∷ raw (
            units ": "
            ++ (decimal (active_count view.users) ++ (units " / " ++ decimal (length view.users))))
        ∷ [])
    ∷ button (message "addUser" ∷ []) true add_user
    ∷ []

unfoldable pub users_screen : Floats → UsersView → List (Widget UsersEvent)
users_screen floats view =
    alerts_of view.error view.notice close_error close_notice
    ++ (users_heading view
        ++ (columns
            ++ (for_each view.users (user_row floats view)
                ++ (form_dialog view ++ password_shown view))))

-- What an event asks of the server or the router.
pub data UsersEffect : Type 0 where
  no_effect : UsersEffect
  pushes : Text → UsersEffect
  sends : UserRequest → UsersEffect

abbrev with_form : UsersView → Form → UsersView × UsersEffect
with_form view form = (record view { form = form }, no_effect)

abbrev sent_if : Option UserRequest → UsersEffect
sent_if none = no_effect
sent_if (some request) = sends request

-- `t`, the two settings that a new form starts with, and what `window.confirm` answers.
module _ (t : String → Text) (default_quota : ℕ) (permission : String) (confirmed : Bool) where
  unfoldable pub press_users : UsersEvent → UsersView → UsersView × UsersEffect
  press_users close_error view = (record view { error = [] }, no_effect)
  press_users close_notice view = (record view { notice = [] }, no_effect)
  press_users add_user view = (open_dialog none default_quota permission view, no_effect)
  press_users cancel_form view = (record view { dialog = false }, no_effect)
  press_users save_form view = elim (save_request view) [
    | none ↦ (fail_users t (error_of (t "invalidUserForm")) view, no_effect)
    | some request ↦ (view, sends request)
  ]
  press_users cancel_password view = (record view { password_dialog = false }, no_effect)
  press_users save_password view =
      if ltb (length view.password_value) 8
      then (fail_users t (error_of (t "passwordTooShort")) view, no_effect)
      else elim view.password_target [
        | none ↦ (fail_users t (other (units "TypeError")) view, no_effect)
        | some user ↦ (view, sends (reset_password user.id view.password_value))
      ]
  press_users (browses user) view = (view, pushes (units "/files/u/" ++ decimal user.id))
  press_users (edits user) view = (open_dialog (some user) default_quota permission view, no_effect)
  press_users (resets user) view = (open_password user view, no_effect)
  press_users (toggles user) view = (view, sends (toggle_request user))
  press_users (removes user) view = (view, sent_if (remove_request confirmed user))
  press_users (type_username s) view = with_form view (record view.form { username = s })
  press_users (type_password s) view = with_form view (record view.form { password = s })
  press_users (type_root s) view = with_form view (record view.form { root_dir = s })
  press_users (type_amount s) view = with_form view (record view.form { quota_amount = typed s })
  press_users (type_new_password s) view = (record view { password_value = s }, no_effect)
  press_users (choose_permission value) view =
      with_form view (record view.form { permission = value })
  press_users (choose_unit unit) view = with_form view (record view.form { quota_unit = unit })
  press_users (choose_status value) view = with_form view (record view.form { disabled = value })
