-- ===== src/Browser/View/Steps.antt =====
-- web/src/views/FileBrowserView.vue: the view as a transition system. A step is an event of a control
-- that is on the screen, one of the section's own events, a choice of files, a navigation that leaves the
-- view mounted, or an answer. The user who is signed in stays the same. An answer may come at any time, in
-- any order and at any address.
use easy_webdav.Prelude.{Bool, false, List, [], Text, if◌then◌else◌}
use easy_webdav.Api.Problem.{Reply, Problem}
use easy_webdav.Api.Types.{Entry}
use easy_webdav.Upload.Session.{UploadTask}
use easy_webdav.Screen.{Offers}
use easy_webdav.Preview.Overlay.Template.{Emitted}
use easy_webdav.Browser.Drop.{Transfer, ListedFile}
use easy_webdav.Browser.Panel.{UsageAnswers, reload, fail, succeed}
use easy_webdav.Browser.Panel.Dialogs.{ActionAnswers, action}
use easy_webdav.Browser.Refs.{Visit, Route, at_route, place_of, Browser}
use easy_webdav.Browser.View.{
  Sent, ask_conflict, press, drag_over, drag_leave, drop_files, pick_files, take_emitted,
  start_reload, new_browser, BrowserEvent, follow_route,
}
use easy_webdav.Browser.View.Template.{screen}

-- What reaches the view from outside: the answers to a reload and to the request of one of the three
-- dialogs; a question of `uploadPicked`, its tasks, a failure, and its end, which tells whether no
-- upload has failed.
pub data Answer : Type 0 where
  reloaded : Reply (List Entry) → UsageAnswers → Answer
  named moved deleted : ActionAnswers → Answer
  asked : Text → Answer
  under_way : List UploadTask → Answer
  upload_failed : Problem → Answer
  uploads_ended : Bool → Reply (List Entry) → UsageAnswers → Answer

-- What made the view move.
pub data Cause : Type 0 where
  by_user by_drop by_pick by_navigation by_answer : Cause

module _ (visit : Visit) where
  unfoldable pub receive : Answer → Browser → Browser
  receive (reloaded listing usage) b = record b {
    panel = reload visit.t (place_of visit) listing usage b.panel;
  }
  receive (named answers) b =
      let after = action visit.t visit.address (place_of visit) answers b.panel in
      record b {
        panel = after.0;
        dialogs = record b.dialogs { name_modal = if after.1 then false else b.dialogs.name_modal };
      }
  receive (moved answers) b =
      let after = action visit.t visit.address (place_of visit) answers b.panel in
      record b {
        panel = after.0;
        dialogs = record b.dialogs { move_modal = if after.1 then false else b.dialogs.move_modal };
      }
  receive (deleted answers) b =
      let after = action visit.t visit.address (place_of visit) answers b.panel in
      record b {
        panel = after.0;
        dialogs = record b.dialogs {
          delete_modal = if after.1 then false else b.dialogs.delete_modal;
        };
      }
  receive (asked name) b = ask_conflict name b
  receive (under_way tasks) b = record b { panel = record b.panel { upload_tasks = tasks } }
  receive (upload_failed problem) b = record b { panel = fail visit.t problem b.panel }
  receive (uploads_ended all_well listing usage) b =
      let loaded = reload visit.t (place_of visit) listing usage b.panel in
      record b {
        panel = if all_well then succeed (visit.t.plain "uploadComplete") loaded else loaded;
      }

-- `Allowed` are the answers that may come, and `Leads` the addresses that a navigation may lead to.
module _ (Allowed : Answer → Type 0) (Leads : Visit → Type 0) where
  pub data Step : Cause → Visit → Browser → Visit → Browser → List Sent → Type 1 where
    presses :
        {visit : Visit} {b : Browser} {e : BrowserEvent}
        → Offers (screen visit b) e
        → Step by_user visit b visit (press visit e b).0 (press visit e b).1
    chooses :
        {visit : Visit} {b : Browser} (files : List ListedFile)
        → Step by_pick visit b visit (pick_files visit files b).0 (pick_files visit files b).1
    drags : {visit : Visit} {b : Browser} → Step by_user visit b visit (drag_over visit b) []
    leaves : {visit : Visit} {b : Browser} → Step by_user visit b visit (drag_leave visit b) []
    drops :
        {visit : Visit} {b : Browser} (transfer : Transfer)
        → Step by_drop visit b visit (drop_files visit transfer b).0 (drop_files visit transfer b).1
    emits :
        {visit : Visit} {b : Browser} (emitted : Emitted)
        → Step by_user visit b visit (take_emitted emitted b) []
    navigates :
        {visit : Visit} {b : Browser} (route : Route)
        → Leads (at_route route visit)
        → Step by_navigation visit b
            (at_route route visit)
            (follow_route route.name b).0
            (follow_route route.name b).1
    -- What is asked of the server at one address may be answered at another.
    receives :
        {visit : Visit} {b : Browser} (asked_at : Route) (answer : Answer)
        → Allowed answer
        → Step by_answer visit b visit (receive (at_route asked_at visit) answer b) []

  -- What the view can come to, from its start with a stored `ew-hidden`, and at which address.
  pub data Reach : Visit → Browser → Type 1 where
    mounted :
        (visit : Visit) (stored : Bool)
        → Leads visit
        → Reach visit (start_reload (new_browser visit stored)).0
    moves :
        {visit visit' : Visit} {b b' : Browser} {cause : Cause} {sent : List Sent}
        → Reach visit b
        → Step cause visit b visit' b' sent
        → Reach visit' b'
