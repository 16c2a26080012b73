-- ===== src/Connect/Dialog.antt =====
-- web/src/components/ConnectDialog.vue: the dialog with the connection help, and its copying.
pub mod Copying
use easy_webdav.Prelude.{
  some, ℕ, suc, ◌-◌, Bool, true, false, List, [], ◌∷◌, ◌++◌, Text, units, String, str_eq,
  if◌then◌else◌,
}
use easy_webdav.Screen.{Part, message, raw, Label, Widget, shows, button, field, when, for_each}
use easy_webdav.Connect.Info.{ConnectInfo, ParsedUrl, build_connect_info}

-- `info`; the dialog is told whether the connection is insecure.
unfoldable pub dialog_info : (Text → ParsedUrl) → Text → Text → Text → Bool → ConnectInfo
dialog_info parse origin base username insecure =
    build_connect_info parse
      (record { origin = origin; base_url = base; username = username; insecure = some insecure })

-- `copied`, and how many timers are running that will empty it.
pub record CopyState : Type 0 where
  pub copied : String
  pub timers : ℕ

-- How the platform takes the text: by its clipboard, which accepts or rejects it, or through the
-- selection of an element, where `execCommand` tells whether it was copied.
pub data Clipboard : Type 0 where
  write_text : Bool → Clipboard
  exec_command : Bool → Clipboard

unfoldable pub has_taken : Clipboard → Bool
has_taken (write_text accepted) = accepted
has_taken (exec_command copied) = copied

unfoldable pub copy_text : String → Clipboard → CopyState → CopyState
copy_text label clipboard state = record {
  copied = if has_taken clipboard then label else "failed";
  timers = suc state.timers;
}

-- A timer of `copy` runs out.
unfoldable pub run_out : CopyState → CopyState
run_out state = record { copied = ""; timers = state.timers - 1 }

unfoldable pub copy_label : CopyState → String → String
copy_label state label =
    if str_eq state.copied "failed"
    then "connectCopyFailed"
    else if str_eq state.copied label
    then "connectCopied"
    else "connectCopy"

pub data ConnectEvent : Type 0 where
  copies : String → Text → ConnectEvent
  closes : ConnectEvent

-- The panes; their tabs are always shown.
pub data Pane : Type 0 where
  windows macos linux rclone mobile : Pane

unfoldable pub tabs : List (Widget ConnectEvent)
tabs =
    shows (message "connectWindows" ∷ [])
    ∷ shows (message "connectMac" ∷ [])
    ∷ shows (message "connectLinux" ∷ [])
    ∷ shows (raw (units "rclone") ∷ [])
    ∷ shows (message "connectMobile" ∷ [])
    ∷ []

-- A snippet with its button.
abbrev pub snippet : CopyState → String → Text → List (Widget ConnectEvent)
snippet state label value =
    shows (raw value ∷ [])
    ∷ button (message (copy_label state label) ∷ []) true (copies label value)
    ∷ []

unfoldable pub snippets : ConnectInfo → CopyState → Pane → List (Widget ConnectEvent)
snippets info state windows =
    snippet state "unc" info.windows_path ++ snippet state "netuse" info.net_use_command
snippets info state macos = snippet state "mac" info.dav_url
snippets info state linux = snippet state "davfs" info.davfs_command
snippets info state rclone =
    snippet state "rclone" info.rclone_create_command
    ++ snippet state "verify" info.rclone_verify_command
snippets info state mobile = snippet state "mobile" info.dav_url

unfoldable pub steps_key : Pane → String
steps_key windows = "connectWindowsSteps"
steps_key macos = "connectMacSteps"
steps_key linux = "connectLinuxSteps"
steps_key rclone = "connectRcloneSteps"
steps_key mobile = "connectMobileSteps"

-- `steps` is what `t` gives for the key of a list of steps.
module _ (steps : String → List Text) where
  unfoldable pub step_list : String → List (Widget ConnectEvent)
  step_list key = for_each (steps key) (λ step. shows (raw step ∷ []) ∷ [])

  unfoldable pub pane_shown : ConnectInfo → CopyState → Pane → List (Widget ConnectEvent)
  pane_shown info state pane = step_list (steps_key pane) ++ snippets info state pane

  -- The whole, while `pane` is the one that is open.
  unfoldable pub connect_dialog : ConnectInfo → CopyState → Pane → List (Widget ConnectEvent)
  connect_dialog info state pane =
      shows (message "connectTitle" ∷ [])
      ∷ button [] true closes
      ∷ shows (message "connectIntro" ∷ [])
      ∷ (snippet state "url" info.dav_url
          ++ (when info.insecure (shows (message "connectInsecureWarning" ∷ []) ∷ [])
              ++ (tabs
                  ++ (pane_shown info state pane
                      ++ shows (message "connectCredentials" ∷ []) ∷ []))))
