-- ===== src/Admin/Account/Template.antt =====
-- web/src/views/AccountView.vue, lines 38-61: the template, and its events up to their requests.
use easy_webdav.Prelude.{Bool, true, false, List, [], ◌∷◌, ◌++◌, Option, none, some, Text, String}
use easy_webdav.Api.Types.{User}
use easy_webdav.Screen.{message, raw, Widget, shows, button, field}
use easy_webdav.Admin.Fields.{alerts_of}
use easy_webdav.Admin.Account.{AccountView, begin_change}

pub data AccountEvent : Type 0 where
  close_error close_notice changes : AccountEvent
  type_current type_new : Text → AccountEvent

-- `session.user?.username` and `session.user?.root_dir`.
unfoldable pub account_heading : Option User → List (Widget AccountEvent)
account_heading none = shows (message "account" ∷ []) ∷ []
account_heading (some user) =
    shows (message "account" ∷ [])
    ∷ shows (raw user.username ∷ [])
    ∷ shows (raw user.root_dir ∷ [])
    ∷ []

unfoldable pub account_screen : Option User → AccountView → List (Widget AccountEvent)
account_screen user view =
    alerts_of view.error view.notice close_error close_notice
    ++ (account_heading user
        ++ (field (message "currentPassword" ∷ []) view.current_password type_current
            ∷ field (message "newPassword" ∷ []) view.new_password type_new
            ∷ button (message "changePassword" ∷ []) true changes
            ∷ []))

-- The view, and whether the change is asked for.
unfoldable pub press_account : (String → Text) → AccountEvent → AccountView → AccountView × Bool
press_account t close_error view = (record view { error = [] }, false)
press_account t close_notice view = (record view { notice = [] }, false)
press_account t changes view = begin_change t view
press_account t (type_current s) view = (record view { current_password = s }, false)
press_account t (type_new s) view = (record view { new_password = s }, false)
