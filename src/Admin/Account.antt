-- ===== src/Admin/Account.antt =====
-- web/src/views/AccountView.vue: the change of the password.
pub mod Template
use easy_webdav.Prelude.{Bool, true, false, [], Text, String, ltb, length, if◌then◌else◌}
use easy_webdav.Api.Problem.{Reply, ok, err}
use easy_webdav.Admin.{shown_error}

pub record AccountView : Type 0 where
  pub current_password : Text
  pub new_password : Text
  pub error : Text
  pub notice : Text
  pub busy : Bool

module _ (t : String → Text) where
  -- `submit` up to its request; the flag tells whether there is one.
  unfoldable pub begin_change : AccountView → AccountView × Bool
  begin_change view =
      if ltb (length view.new_password) 8
      then (record view { error = t "passwordTooShort"; notice = [] }, false)
      else (record view { error = []; notice = []; busy = true }, true)

  unfoldable pub finish_change : Reply (Unit {0}) → AccountView → AccountView
  finish_change (ok _) view = record view {
    current_password = [];
    new_password = [];
    notice = t "saved";
    busy = false;
  }
  finish_change (err problem) view = record view { error = shown_error t problem; busy = false }

  unfoldable pub change_password : Reply (Unit {0}) → AccountView → AccountView
  change_password done view =
      let begun = begin_change view in if begun.1 then finish_change done begun.0 else begun.0
