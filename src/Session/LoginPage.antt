-- ===== src/Session/LoginPage.antt =====
-- web/src/views/LoginView.vue, lines 39-57: the template.
use easy_webdav.Prelude.{true, List, [], ◌∷◌, ◌++◌, Text, is_truthy, if◌then◌else◌}
use easy_webdav.Screen.{message, raw, Widget, shows, button, field, when}
use easy_webdav.Session.Store.{Session}
use easy_webdav.Session.Login.{LoginView}

pub data LoginEvent : Type 0 where
  type_name type_password : Text → LoginEvent
  submits : LoginEvent

-- Shown with the name and the password that have been typed.
unfoldable pub login_screen : Session → LoginView → Text → Text → List (Widget LoginEvent)
login_screen session view username password =
    shows (raw session.site_name ∷ [])
    ∷ shows (message (if session.setup_required then "setup" else "login") ∷ [])
    ∷ shows (message "authDescription" ∷ [])
    ∷ (when (is_truthy view.error) (shows (raw view.error ∷ []) ∷ [])
        ++ (field (message "username" ∷ []) username type_name
            ∷ field (message "password" ∷ []) password type_password
            ∷ button (message (if session.setup_required then "createAdmin" else "login") ∷ []) true
                submits
            ∷ []))
