-- ===== src/Browser/Panel/Dialogs.antt =====
-- web/src/views/FileBrowserView.vue, lines 148-229: the dialogs that change files, and the downloads.
use easy_webdav.Prelude.{
  trim, Bool, true, false, List, [], ◌∷◌, ◌++◌, Option, none, some, Text, units, is_truthy, map,
  if◌then◌else◌,
}
use easy_webdav.Api.Problem.{Reply, ok, err}
use easy_webdav.Api.Types.{Entry}
use easy_webdav.Api.Url.{Encoders, download_url}
use easy_webdav.Browser.Path.{PathMatch, join}
use easy_webdav.Browser.Panel.{Translator, Panel, Place, UsageAnswers, fail, reload}

-- The bodies of `api.fileAction` with their methods.
pub data FileAction : Type 0 where
  make_directory : Text → FileAction
  move_file copy_file : Text → Text → FileAction
  delete_file : Text → FileAction

pub data NameAction : Type 0 where
  mkdir rename copy : NameAction

-- The refs of the three dialogs; an absent target is `null`.
pub record Dialogs : Type 0 where
  pub name_modal : Bool
  pub name_action : NameAction
  pub name_value : Text
  pub name_target : Option Entry
  pub move_modal : Bool
  pub move_value : Text
  pub move_target : Option Entry
  pub delete_modal : Bool
  pub delete_target : Option Entry

-- `target?.name || ''`.
unfoldable pub name_of : Option Entry → Text
name_of none = []
name_of (some entry) = entry.name

unfoldable pub proposed_name : NameAction → Option Entry → Text
proposed_name mkdir entry = []
proposed_name rename entry = name_of entry
proposed_name copy entry = name_of entry ++ units " copy"

unfoldable pub prompt_name : NameAction → Option Entry → Dialogs → Dialogs
prompt_name kind entry dialogs = record dialogs {
  name_action = kind;
  name_target = entry;
  name_value = proposed_name kind entry;
  name_modal = true;
}

unfoldable pub prompt_delete : Entry → Dialogs → Dialogs
prompt_delete entry dialogs = record dialogs { delete_target = some entry; delete_modal = true }

-- What the server answers to the request of a dialog and to those of the reload.
pub record ActionAnswers : Type 0 where
  pub done : Reply (Unit {0})
  pub listing : Reply (List Entry)
  pub usage : UsageAnswers

module _ (t : Translator) (address : PathMatch) where
  unfoldable pub prompt_move : Entry → Dialogs → Dialogs
  prompt_move entry dialogs = record dialogs {
    move_target = some entry;
    move_value = join address entry.name;
    move_modal = true;
  }

  -- The requests that the three dialogs send, if they send one.
  unfoldable pub name_request : Dialogs → Option FileAction
  name_request dialogs =
      let value = trim dialogs.name_value in
      let target = join address (name_of dialogs.name_target) in
      if is_truthy value
      then some (elim dialogs.name_action [
        | mkdir ↦ make_directory (join address value)
        | rename ↦ move_file target (join address value)
        | copy ↦ copy_file target (join address value)
      ])
      else none

  unfoldable pub move_request : Dialogs → Option FileAction
  move_request dialogs =
      let value = trim dialogs.move_value in
      if is_truthy value
      then some (move_file (join address (name_of dialogs.move_target)) value)
      else none

  unfoldable pub delete_request : Dialogs → FileAction
  delete_request dialogs = delete_file (join address (name_of dialogs.delete_target))

  -- `action`, and the `try` around it: the panel, and whether the dialog is closed.
  unfoldable pub action : Place → ActionAnswers → Panel → Panel × Bool
  action place answers panel = elim answers.done [
    | ok _ ↦ (reload t place answers.listing answers.usage panel, true)
    | err problem ↦ (fail t problem panel, false)
  ]

  unfoldable pub submit_name : Place → ActionAnswers → Dialogs → Panel → Dialogs × Panel
  submit_name place answers dialogs panel = elim (name_request dialogs) [
    | none ↦ (dialogs, panel)
    | some request ↦
        let after = action place answers panel in
        (record dialogs { name_modal = if after.1 then false else dialogs.name_modal }, after.0)
  ]

  unfoldable pub submit_move : Place → ActionAnswers → Dialogs → Panel → Dialogs × Panel
  submit_move place answers dialogs panel = elim (move_request dialogs) [
    | none ↦ (dialogs, panel)
    | some request ↦
        let after = action place answers panel in
        (record dialogs { move_modal = if after.1 then false else dialogs.move_modal }, after.0)
  ]

  unfoldable pub confirm_delete : Place → ActionAnswers → Dialogs → Panel → Dialogs × Panel
  confirm_delete place answers dialogs panel =
      let after = action place answers panel in
      (record dialogs { delete_modal = if after.1 then false else dialogs.delete_modal }, after.0)

  -- The address that a download leads to: of the names that are given, or of the selected ones.
  unfoldable pub download : Encoders → Text → Text → List Text → List Text → Option Text
  download encoders base user_id names selected = elim names [
    | name ∷ rest ↦ some (download_url encoders base (map (join address) (name ∷ rest)) user_id)
    | [] ↦ elim selected [
      | [] ↦ none
      | name ∷ rest ↦ some (download_url encoders base (map (join address) (name ∷ rest)) user_id)
    ]
  ]

pub data RowKey : Type 0 where
  download_row rename_row move_row copy_row delete_row : RowKey

unfoldable pub row_options : Bool → List RowKey
row_options can_write =
    download_row ∷ (if can_write then rename_row ∷ move_row ∷ copy_row ∷ delete_row ∷ [] else [])
