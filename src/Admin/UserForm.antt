-- ===== src/Admin/UserForm.antt =====
-- Editing a user (web/src/views/UsersView.vue).
use easy_webdav.Prelude.{
  trim, ℕ, ◌%◌, ◌≡◌, true, false, none, some, String, str_eq, is_truthy, arith,
}
use easy_webdav.Api.Types.{User}
use easy_webdav.Format.Quota.{kb, quota_to_bytes-split_quota}
use easy_webdav.Admin.Forms.{update_user, edit_form, form_body, trimmed_root}
use easy_webdav.Admin.Users.{UsersView, open_dialog, save_request}

-- Opening a user and saving the form unchanged sends the user's own fields and no password: for a user
-- with a permission, a name and a directory that `trim` leaves as they are, neither of them empty, and
-- a quota of whole kilobytes.
pub save_request-open_dialog :
    (user : User) (default_quota : ℕ) (setting : String) (view : UsersView)
    → str_eq user.permission "" ≡ false
    → is_truthy user.username ≡ true
    → trim user.username ≡ user.username
    → is_truthy user.root_dir ≡ true
    → trim user.root_dir ≡ user.root_dir
    → user.quota % kb ≡ 0
    → save_request (open_dialog (some user) default_quota setting view)
      ≡ some (
          update_user user.id (record {
            username = user.username;
            permission = user.permission;
            quota = user.quota;
            disabled = user.disabled;
            root_dir = some user.root_dir;
            password = none;
          }))
unfolding save_request open_dialog edit_form form_body trimmed_root
save_request-open_dialog user default_quota setting view p n m r s q =
    ground (arith, quota_to_bytes-split_quota user.quota q)
