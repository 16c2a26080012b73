-- ===== src/Shell/Texts/Help.antt =====
-- The messages of the frame (web/src/App.vue), of the connection help and of the overlay
-- (web/src/components).
use easy_webdav.Prelude.{◌≡◌, refl, List, some, Text, units, String, is_truthy, str_eq}
use easy_webdav.Messages.Catalogue.{several_steps, kind_at}
use easy_webdav.Messages.Locale.{messages}
use easy_webdav.Messages.Laws.{kind_at-messages}
use easy_webdav.Screen.{when}
use easy_webdav.Screen.Labels.{Speaks-append, Speaks-when, Speaks-for_each}
use easy_webdav.Session.Store.{Session, is_admin}
use easy_webdav.Shell.{Shell, menu, top_actions, frame, has_user}
use easy_webdav.Connect.Info.{ConnectInfo}
use easy_webdav.Connect.Dialog.{
  CopyState, copy_label, Pane, windows, macos, linux, rclone, mobile, tabs, snippet, snippets,
  steps_key, step_list, pane_shown, connect_dialog,
}
use easy_webdav.Preview.Overlay.{Props, TextState, too_large}
use easy_webdav.Preview.Kind.{extension_of}
use easy_webdav.Preview.Overlay.Template.{overlay_head, info_card}
use easy_webdav.Shell.Texts.Line.{HasLine, IsSpoken, line, either, either_part, said}

pub frame-IsSpoken : (shell : Shell) (session : Session) → IsSpoken (frame shell session)
unfolding frame menu top_actions kind_at
frame-IsSpoken shell session = (
  (tt, (tt, tt)),
  Speaks-append HasLine (menu session) _
      (Speaks-when HasLine (has_user session) _ (
        said _ refl,
        Speaks-append HasLine (when (is_admin session) _) _
            (Speaks-when HasLine (is_admin session) _
              (said _ refl, (said _ refl, (said _ refl, tt))))
            (said _ refl, tt),
      ))
      (Speaks-append HasLine (top_actions shell session) _
        (
          (tt, (tt, tt)),
          (
            (either _ _ shell.dark (line _ refl) (line _ refl), (tt, tt)),
            Speaks-when HasLine (has_user session) _ (said _ refl, (said _ refl, tt)),
          ),
        )
        (Speaks-when HasLine session.insecure _ (said _ refl, tt))),
)

copy_label-HasLine : (state : CopyState) (label : String) → HasLine (copy_label state label)
unfolding copy_label kind_at
copy_label-HasLine state label =
    either _ _ (str_eq state.copied "failed") (line _ refl)
      (either _ _ (str_eq state.copied label) (line _ refl) (line _ refl))

snippet-IsSpoken :
    (state : CopyState) (label : String) (value : Text) → IsSpoken (snippet state label value)
snippet-IsSpoken state label value = ((tt, tt), ((copy_label-HasLine state label, tt), tt))

snippets-IsSpoken :
    (info : ConnectInfo) (state : CopyState) (pane : Pane) → IsSpoken (snippets info state pane)
unfolding snippets
snippets-IsSpoken info state windows =
    Speaks-append HasLine (snippet state "unc" info.windows_path)
      (snippet state "netuse" info.net_use_command) (snippet-IsSpoken state "unc" info.windows_path)
      (snippet-IsSpoken state "netuse" info.net_use_command)
snippets-IsSpoken info state macos = snippet-IsSpoken state "mac" info.dav_url
snippets-IsSpoken info state linux = snippet-IsSpoken state "davfs" info.davfs_command
snippets-IsSpoken info state rclone =
    Speaks-append HasLine (snippet state "rclone" info.rclone_create_command)
      (snippet state "verify" info.rclone_verify_command)
      (snippet-IsSpoken state "rclone" info.rclone_create_command)
      (snippet-IsSpoken state "verify" info.rclone_verify_command)
snippets-IsSpoken info state mobile = snippet-IsSpoken state "mobile" info.dav_url

pub connect_dialog-IsSpoken :
    (steps : String → List Text) (info : ConnectInfo) (state : CopyState) (pane : Pane)
    → IsSpoken (connect_dialog steps info state pane)
unfolding connect_dialog tabs pane_shown step_list kind_at
connect_dialog-IsSpoken steps info state pane = (
  said _ refl,
  (
    tt,
    (
      said _ refl,
      Speaks-append HasLine (snippet state "url" info.dav_url) _
          (snippet-IsSpoken state "url" info.dav_url)
          (Speaks-append HasLine (when info.insecure _) _
            (Speaks-when HasLine info.insecure _ (said _ refl, tt))
            (
              said _ refl,
              (
                said _ refl,
                (
                  said _ refl,
                  (
                    (tt, tt),
                    (
                      said _ refl,
                      Speaks-append HasLine (pane_shown steps info state pane) _
                          (Speaks-append HasLine (step_list steps (steps_key pane)) _
                            (Speaks-for_each HasLine (steps (steps_key pane)) _
                              (λ step. ((tt, tt), tt)))
                            (snippets-IsSpoken info state pane))
                          (said _ refl, tt),
                    ),
                  ),
                ),
              ),
            )),
    ),
  ),
)

-- The steps of a pane are a list in every locale.
pub steps_key-messages :
    (pane : Pane) (locale : Text) → kind_at (steps_key pane) (messages locale) ≡ some several_steps
unfolding steps_key kind_at messages
steps_key-messages windows locale = kind_at-messages "connectWindowsSteps" locale (units "en")
steps_key-messages macos locale = kind_at-messages "connectMacSteps" locale (units "en")
steps_key-messages linux locale = kind_at-messages "connectLinuxSteps" locale (units "en")
steps_key-messages rclone locale = kind_at-messages "connectRcloneSteps" locale (units "en")
steps_key-messages mobile locale = kind_at-messages "connectMobileSteps" locale (units "en")

pub overlay_head-IsSpoken :
    (lower : Text → Text) (props : Props) → IsSpoken (overlay_head lower props)
unfolding overlay_head kind_at
overlay_head-IsSpoken lower props =
    ((tt, tt), ((line _ refl, (tt, tt)), ((line _ refl, (tt, tt)), (tt, tt))))

pub info_card-IsSpoken :
    (lower date : Text → Text) (props : Props) (state : TextState)
    → IsSpoken (info_card lower date props state)
unfolding info_card kind_at
info_card-IsSpoken lower date props state = (
  (tt, tt),
  (
    (either_part _ _ (is_truthy (extension_of lower props.entry.name)) tt (line _ refl), (tt, tt)),
    (
      (
        either_part _ _ (is_truthy state.text_error) tt
            (either _ _ (too_large lower props) (line _ refl) (line _ refl)),
        tt,
      ),
      (said _ refl, tt),
    ),
  ),
)
