-- ===== src/Browser/View.antt =====
-- web/src/views/FileBrowserView.vue: what each event of the view does. An event runs up to the requests
-- that it sends; the answers come in Steps.
pub mod Template
pub mod Steps
pub mod Reader
pub mod Targets
mod Tests
use easy_webdav.Prelude.{
  ℕ, Bool, true, false, ◌&&◌, ◌||◌, not, starts_with, text_eq, List, [], ◌∷◌, ◌++◌, Option, none,
  some, Text, units, is_truthy, trim, if◌then◌else◌,
}
use easy_webdav.Floats.{Floats}
use easy_webdav.Api.Types.{Entry, User}
use easy_webdav.Api.Url.{Encoders}
use easy_webdav.Upload.Session.{ConflictChoice, overwrite, skip, rename}
use easy_webdav.Preview.Overlay.Template.{Emitted, nothing, close, update_entry}
use easy_webdav.Browser.Path.{PathMatch, current_path, join, go, can_write}
use easy_webdav.Browser.Listing.{Platform, SortKey, by_name, Sorting, set_sort, toggle_select}
use easy_webdav.Browser.Panel.{begin_browse, Translator, Panel, Place}
use easy_webdav.Browser.Panel.Dialogs.{
  FileAction, NameAction, mkdir, rename as rename_entry, copy, Dialogs, prompt_name, prompt_move,
  prompt_delete, name_request, move_request, delete_request, download, RowKey, download_row,
  rename_row, move_row, copy_row, delete_row,
}
use easy_webdav.Browser.Conflicts.{Picked, ConflictAnswer}
use easy_webdav.Browser.Refs.{Visit, may_write, Question, Browser}
use easy_webdav.Browser.Drop.{Transfer, on_drop, ListedFile, on_pick}

pub data BrowserEvent : Type 0 where
  close_error close_notice leave_user refresh choose_files download_selected : BrowserEvent
  go_to type_query select_row : Text → BrowserEvent
  tick_hidden : Bool → BrowserEvent
  sort_by : SortKey → BrowserEvent
  open_entry ask_move ask_delete : Entry → BrowserEvent
  ask_name : NameAction → Option Entry → BrowserEvent
  select_option : Entry → RowKey → BrowserEvent
  type_name type_move : Text → BrowserEvent
  cancel_name save_name cancel_move save_move cancel_delete do_delete : BrowserEvent
  choose_answer : ConflictChoice → BrowserEvent
  tick_all : Bool → BrowserEvent
  cancel_answer save_answer dismiss_answer : BrowserEvent

-- What the view asks of the server and of the platform.
pub data Sent : Type 0 where
  lists : Sent
  acts : FileAction → Sent
  uploads : List Picked → Sent
  pushes assigns : Text → Sent
  stores_hidden : Bool → Sent
  answers : ConflictAnswer → Sent

-- Whether it changes files.
abbrev pub is_write : Sent → Bool
is_write (acts request) = true
is_write (uploads []) = false
is_write (uploads (item ∷ picked)) = true
is_write _ = false

-- `promptName`, `promptMove`, `promptDelete` and `submit…` write to the refs of the dialogs only.
abbrev with_dialogs : Browser → Dialogs → Browser
with_dialogs browser dialogs = record browser { dialogs = dialogs }

abbrev unsent : Browser → Browser × List Sent
unsent browser = (browser, [])

abbrev sent_if : Option FileAction → List Sent
sent_if none = []
sent_if (some request) = acts request ∷ []

abbrev assigned : Option Text → List Sent
assigned none = []
assigned (some address) = assigns address ∷ []

unfoldable pub row_action : Visit → Entry → RowKey → Browser → Browser × List Sent
row_action visit entry download_row browser = (
  browser,
  assigned (
      download visit.t visit.address visit.encoders visit.base visit.user_id (entry.name ∷ [])
        browser.panel.selected),
)
row_action visit entry rename_row browser =
    unsent (with_dialogs browser (prompt_name rename_entry (some entry) browser.dialogs))
row_action visit entry move_row browser =
    unsent (with_dialogs browser (prompt_move visit.t visit.address entry browser.dialogs))
row_action visit entry copy_row browser =
    unsent (with_dialogs browser (prompt_name copy (some entry) browser.dialogs))
row_action visit entry delete_row browser =
    unsent (with_dialogs browser (prompt_delete entry browser.dialogs))

-- `reload` up to its requests; it also runs when the view is mounted.
unfoldable pub start_reload : Browser → Browser × List Sent
start_reload browser = (record browser { panel = begin_browse browser.panel }, lists ∷ [])

-- `resolveConflict`.
unfoldable pub resolve_conflict : Option ConflictChoice → Browser → Browser × List Sent
resolve_conflict value browser = (
  record browser { question = record browser.question { modal = false } },
  answers (record { choice = value; apply_all = browser.question.apply_all }) ∷ [],
)

-- What the overlay emits: `setPreview`, and the handler of `close`.
unfoldable pub preview_after : Emitted → Option Entry → Option Entry
preview_after nothing shown = shown
preview_after close shown = none
preview_after (update_entry entry) shown = some entry

unfoldable pub take_emitted : Emitted → Browser → Browser
take_emitted emitted browser = record browser {
  preview_entry = preview_after emitted browser.preview_entry;
}

-- The watcher of the address reloads for the names of the routes of the browser.
unfoldable pub reloads_for : Text → Bool
reloads_for route_name =
    starts_with (units "files") route_name || text_eq route_name (units "user-files")

unfoldable pub follow_route : Text → Browser → Browser × List Sent
follow_route route_name browser =
    if reloads_for route_name then start_reload browser else unsent browser

-- `askConflict`, up to the answer.
unfoldable pub ask_conflict : Text → Browser → Browser
ask_conflict name browser = record browser {
  question = record { modal = true; name = name; choice = rename; apply_all = false };
}

module _ (visit : Visit) where
  unfoldable pub press : BrowserEvent → Browser → Browser × List Sent
  press close_error b = unsent (record b { panel = record b.panel { error = [] } })
  press close_notice b = unsent (record b { panel = record b.panel { notice = [] } })
  press leave_user b = (b, pushes (units "/users") ∷ [])
  press refresh b = start_reload b
  -- `fileInput?.click()` opens the dialog of the platform.
  press choose_files b = unsent b
  press download_selected b = (
    b,
    assigned (
        download visit.t visit.address visit.encoders visit.base visit.user_id [] b.panel.selected),
  )
  press (go_to path) b = (b, pushes (go visit.encoders visit.user_id path) ∷ [])
  press (type_query query) b = unsent (record b { query = query })
  press (select_row name) b =
      unsent
        (record b { panel = record b.panel { selected = toggle_select name b.panel.selected } })
  press (tick_hidden hidden) b = (record b { hidden = hidden }, stores_hidden hidden ∷ [])
  press (sort_by key) b = unsent (record b { sorting = set_sort key b.sorting })
  press (open_entry entry) b =
      if entry.directory
      then (b, pushes (go visit.encoders visit.user_id (join visit.address entry.name)) ∷ [])
      else unsent (record b { preview_entry = some entry })
  press (ask_move entry) b =
      unsent (with_dialogs b (prompt_move visit.t visit.address entry b.dialogs))
  press (ask_delete entry) b = unsent (with_dialogs b (prompt_delete entry b.dialogs))
  press (ask_name kind entry) b = unsent (with_dialogs b (prompt_name kind entry b.dialogs))
  press (select_option entry key) b = row_action visit entry key b
  press (type_name value) b = unsent (with_dialogs b (record b.dialogs { name_value = value }))
  press (type_move value) b = unsent (with_dialogs b (record b.dialogs { move_value = value }))
  press cancel_name b = unsent (with_dialogs b (record b.dialogs { name_modal = false }))
  press cancel_move b = unsent (with_dialogs b (record b.dialogs { move_modal = false }))
  press cancel_delete b = unsent (with_dialogs b (record b.dialogs { delete_modal = false }))
  press save_name b = (b, sent_if (name_request visit.t visit.address b.dialogs))
  press save_move b = (b, sent_if (move_request visit.t visit.address b.dialogs))
  press do_delete b = (b, acts (delete_request visit.t visit.address b.dialogs) ∷ [])
  press (choose_answer choice) b =
      unsent (record b { question = record b.question { choice = choice } })
  press (tick_all value) b =
      unsent (record b { question = record b.question { apply_all = value } })
  press cancel_answer b = resolve_conflict none b
  press save_answer b = resolve_conflict (some b.question.choice) b
  -- The dialog is closed by its own button, which is no answer.
  press dismiss_answer b = unsent (record b { question = record b.question { modal = false } })

  -- The section's own handlers: `@dragover`, `@dragleave` and `@drop`.
  unfoldable pub drag_over : Browser → Browser
  drag_over b = if may_write visit then record b { drop_active = true } else b

  unfoldable pub drag_leave : Browser → Browser
  drag_leave b = record b { drop_active = false }

  unfoldable pub drop_files : Transfer → Browser → Browser × List Sent
  drop_files transfer b = (record b { drop_active = false }, uploads (on_drop transfer) ∷ [])

  -- `onPick`: files have been chosen at one of the two inputs.
  unfoldable pub pick_files : List ListedFile → Browser → Browser × List Sent
  pick_files files b = (b, uploads (on_pick files) ∷ [])

  -- The view as it is mounted; `stored` is the entry `ew-hidden` of the local storage.
  unfoldable pub new_browser : Bool → Browser
  new_browser stored = record {
    panel = record {
      entries = [];
      loading = false;
      error = [];
      notice = [];
      selected = [];
      usage = record { used = 0; quota = 0 };
      target_user = none;
      upload_tasks = [];
    };
    dialogs = record {
      name_modal = false;
      name_action = mkdir;
      name_value = [];
      name_target = none;
      move_modal = false;
      move_value = [];
      move_target = none;
      delete_modal = false;
      delete_target = none;
    };
    question = record { modal = false; name = []; choice = rename; apply_all = false };
    sorting = record { key = by_name; ascending = true };
    query = [];
    hidden = stored;
    preview_entry = none;
    drop_active = false;
  }
