-- ===== src/Admin/LastAdmin.antt =====
-- The last administrator (web/src/views/UsersView.vue).
use easy_webdav.Prelude.{◌+◌, ◌≤◌, ◌≡◌, ◌↔◌, false, not, List, [], ◌∷◌, ◌++◌, if◌then◌else◌, arith}
use easy_webdav.Api.Types.{User}
use easy_webdav.Admin.Users.{is_active_admin, active_admins, is_last_admin}

active_admins-middle :
    (before : List User) (user : User) (behind : List User)
    → active_admins (before ++ user ∷ behind)
      ≡ (if is_active_admin user then 1 else 0) + active_admins (before ++ behind)
unfolding active_admins
active_admins-middle [] user behind = ground arith
active_admins-middle (first ∷ before) user behind =
    ground (arith, active_admins-middle before user behind)

abbrev pub toggled : User → User
toggled user = record user { disabled = not user.disabled }

-- Where a list of users has an active administrator, the buttons that disable and delete a user are
-- enabled exactly if one is left among the others.
pub is_last_admin_lem :
    (before : List User) (user : User) (behind : List User)
    → 1 ≤ active_admins (before ++ user ∷ behind)
    → (is_last_admin (before ++ user ∷ behind) user ≡ false)
      ↔ (1 ≤ active_admins (before ++ behind))
unfolding is_last_admin
is_last_admin_lem before user behind some_admin =
    ground (arith, active_admins-middle before user behind)
