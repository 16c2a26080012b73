-- ===== src/Shell/Texts.antt =====
-- The messages that the templates under web/src ask for. The children prove it of one screen after the
-- other.
mod Line
mod Files
mod Fields
mod Users
mod Admin
mod Help
use easy_webdav.Prelude.{◌≡◌, Option, some, Text, String, List}
use easy_webdav.Floats.{Floats}
use easy_webdav.Api.Types.{User}
use easy_webdav.Messages.Catalogue.{several_steps, kind_at}
use easy_webdav.Messages.Locale.{messages}
use easy_webdav.Session.Store.{Session}
use easy_webdav.Session.Login.{LoginView}
use easy_webdav.Session.LoginPage.{login_screen}
use easy_webdav.Admin.Users.{UsersView}
use easy_webdav.Admin.Users.Template.{users_screen}
use easy_webdav.Admin.Settings.{SettingsView}
use easy_webdav.Admin.Settings.Template.{settings_screen}
use easy_webdav.Admin.Overview.{OverviewView}
use easy_webdav.Admin.Overview.Template.{overview_screen}
use easy_webdav.Admin.Account.{AccountView}
use easy_webdav.Admin.Account.Template.{account_screen}
use easy_webdav.Connect.Info.{ConnectInfo}
use easy_webdav.Connect.Dialog.{CopyState, Pane, steps_key, connect_dialog}
use easy_webdav.Preview.Overlay.{Props, TextState}
use easy_webdav.Preview.Overlay.Template.{overlay_head, info_card}
use easy_webdav.Browser.Refs.{Visit, Browser}
use easy_webdav.Browser.View.Template.{screen}
use easy_webdav.Shell.{Shell, frame}
use easy_webdav.Shell.Texts.Line.{IsSpoken}
use easy_webdav.Shell.Texts.Files.{screen-IsSpoken}
use easy_webdav.Shell.Texts.Users.{users_screen-IsSpoken}
use easy_webdav.Shell.Texts.Admin.{
  settings_screen-IsSpoken, overview_screen-IsSpoken, account_screen-IsSpoken,
  login_screen-IsSpoken,
}
use easy_webdav.Shell.Texts.Help.{
  frame-IsSpoken, connect_dialog-IsSpoken, steps_key-messages, overlay_head-IsSpoken,
  info_card-IsSpoken,
}

-- Every key that a screen of the panel asks for, whatever the screen shows, has a message in every locale,
-- and it is one line of text; and every key that the connection help asks the steps of a pane for has a
-- list of steps there.
pub screens-IsSpoken :
    ((shell : Shell) (session : Session) → IsSpoken (frame shell session))
    × ((session : Session) (view : LoginView) (username password : Text)
        → IsSpoken (login_screen session view username password))
    × ((visit : Visit) (b : Browser) → IsSpoken (screen visit b))
    × ((lower : Text → Text) (props : Props) → IsSpoken (overlay_head lower props))
    × ((lower date : Text → Text) (props : Props) (state : TextState)
        → IsSpoken (info_card lower date props state))
    × ((floats : Floats) (view : UsersView) → IsSpoken (users_screen floats view))
    × ((view : SettingsView) → IsSpoken (settings_screen view))
    × ((floats : Floats) (view : OverviewView) → IsSpoken (overview_screen floats view))
    × ((user : Option User) (view : AccountView) → IsSpoken (account_screen user view))
    × ((steps : String → List Text) (info : ConnectInfo) (state : CopyState) (pane : Pane)
        → IsSpoken (connect_dialog steps info state pane))
    × ((pane : Pane) (locale : Text)
        → kind_at (steps_key pane) (messages locale) ≡ some several_steps)
screens-IsSpoken = (
  frame-IsSpoken, login_screen-IsSpoken, screen-IsSpoken, overlay_head-IsSpoken, info_card-IsSpoken,
  users_screen-IsSpoken, settings_screen-IsSpoken, overview_screen-IsSpoken,
  account_screen-IsSpoken, connect_dialog-IsSpoken, steps_key-messages,
)
