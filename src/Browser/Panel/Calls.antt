-- ===== src/Browser/Panel/Calls.antt =====
-- web/src/views/FileBrowserView.vue, lines 148-201: the calls of the dialogs' requests.
use easy_webdav.Prelude.{◌≡◌, refl, true, [], ◌∷◌, Text, units}
use easy_webdav.Api.Calls.{ApiCall, file_action, Scalar}
use easy_webdav.Api.Calls.Laws.{changes}
use easy_webdav.Api.Request.{is_read, to_upper_unit}
use easy_webdav.Browser.Panel.Dialogs.{
  FileAction, make_directory, move_file, copy_file, delete_file,
}

unfoldable pub file_call : FileAction → Text → ApiCall
file_call (make_directory path) user_id =
    file_action (units "POST") (("path", Scalar.text path) ∷ []) user_id
file_call (move_file path destination) user_id =
    file_action (units "PUT")
      (("action", Scalar.text (units "move"))
        ∷ ("path", Scalar.text path)
        ∷ ("destination", Scalar.text destination)
        ∷ [])
      user_id
file_call (copy_file path destination) user_id =
    file_action (units "PUT")
      (("action", Scalar.text (units "copy"))
        ∷ ("path", Scalar.text path)
        ∷ ("destination", Scalar.text destination)
        ∷ [])
      user_id
file_call (delete_file path) user_id =
    file_action (units "DELETE") (("path", Scalar.text path) ∷ []) user_id

-- Each of them is a call that changes something.
pub file_call-changes :
    (request : FileAction) (user_id : Text) → changes (file_call request user_id) ≡ true
unfolding file_call is_read to_upper_unit
file_call-changes (make_directory path) user_id = refl
file_call-changes (move_file path destination) user_id = refl
file_call-changes (copy_file path destination) user_id = refl
file_call-changes (delete_file path) user_id = refl
