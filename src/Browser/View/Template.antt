-- ===== src/Browser/View/Template.antt =====
-- web/src/views/FileBrowserView.vue, lines 353-499: the template.
use easy_webdav.Prelude.{
  Bool, true, false, ◌&&◌, not, List, [], ◌∷◌, ◌++◌, Option, none, some, Text, units, String,
  is_truthy, or_else, any, text_eq, join_slash, decimal, length, map, if◌then◌else◌, ◌==◌,
}
use easy_webdav.Upload.Progress.{bar_percent}
use easy_webdav.Api.Types.{Entry, User}
use easy_webdav.Screen.{
  message, filled, raw, Label, Widget, shows, bar, button, field, box, choice, file_input, when,
  for_each,
}
use easy_webdav.Format.Size.{format_size}
use easy_webdav.Format.Usage.{usage_percent}
use easy_webdav.Upload.Session.{UploadTask, overwrite, skip, rename}
use easy_webdav.Browser.Path.{segments, current_path}
use easy_webdav.Browser.Listing.{by_name, by_size, by_modified, sort_mark, rows}
use easy_webdav.Browser.Panel.{Panel, Used}
use easy_webdav.Browser.Panel.Dialogs.{
  NameAction, mkdir, rename as rename_entry, copy, RowKey, download_row, rename_row, move_row,
  copy_row, delete_row, row_options, name_of,
}
use easy_webdav.Browser.Refs.{Visit, Browser, may_write, Question}
use easy_webdav.Browser.View.{
  BrowserEvent, close_error, close_notice, leave_user, refresh, choose_files, download_selected,
  go_to, type_query, select_row, tick_hidden, sort_by, open_entry, ask_move, ask_delete, ask_name,
  select_option, type_name, type_move, cancel_name, save_name, cancel_move, save_move,
  cancel_delete, do_delete, choose_answer, tick_all, dismiss_answer, cancel_answer, save_answer,
}

abbrev pub is_empty {ℓ} : {A : Type ℓ} → List A → Bool
is_empty [] = true
is_empty (_ ∷ _) = false

-- `targetUser?.username || `#${userId}``.
unfoldable pub owner_name : Option User → Text → Text
owner_name none user_id = b'#' ∷ user_id
owner_name (some user) user_id = or_else user.username (b'#' ∷ user_id)

-- The alerts.
unfoldable pub alerts : Panel → List (Widget BrowserEvent)
alerts panel =
    when (is_truthy panel.error) (shows (raw panel.error ∷ []) ∷ button [] true close_error ∷ [])
    ++ when (is_truthy panel.notice)
        (shows (raw panel.notice ∷ []) ∷ button [] true close_notice ∷ [])

-- `segments.slice(0, index + 1).join('/')` for each segment, with the segment.
unfoldable pub crumbs_from : List Text → List Text → List (Text × Text)
crumbs_from before [] = []
crumbs_from before (part ∷ parts) =
    (part, join_slash (before ++ part ∷ [])) ∷ crumbs_from (before ++ part ∷ []) parts

abbrev pub crumb : Text × Text → List (Widget BrowserEvent)
crumb (part, path) = shows (raw (units "/") ∷ []) ∷ button (raw part ∷ []) true (go_to path) ∷ []

abbrev pub row_key : RowKey → String
row_key download_row = "download"
row_key rename_row = "rename"
row_key move_row = "move"
row_key copy_row = "copy"
row_key delete_row = "delete"

abbrev pub row_label : RowKey → Label
row_label key = message (row_key key) ∷ []

abbrev pub name_title : NameAction → String
name_title mkdir = "newFolder"
name_title rename_entry = "rename"
name_title copy = "copyName"

abbrev pub name_hint : NameAction → String
name_hint mkdir = "folderName"
name_hint _ = "newName"

module _ (visit : Visit) where
  unfoldable pub usage_card : Used → List (Widget BrowserEvent)
  usage_card usage =
      let limited = not (usage.quota == 0) in
      shows (message "storageUsed" ∷ [])
      ∷ shows (
          raw (format_size usage.used)
          ∷ (if limited then raw (units " / ") ∷ raw (format_size usage.quota) ∷ [] else []))
      ∷ when limited (bar (usage_percent visit.floats usage.used usage.quota) ∷ [])

  unfoldable pub heading : Panel → List (Widget BrowserEvent)
  heading panel =
      let owner = owner_name panel.target_user visit.user_id in
      let shown = current_path visit.address in
      when (is_truthy visit.user_id) (
        shows (filled "viewingUser" owner ∷ [])
        ∷ button (message "leaveUser" ∷ []) true leave_user
        ∷ [])
      ++ (shows (message "fileBrowser" ∷ [])
          ∷ shows (
              (if is_truthy shown
                then raw shown
                else if is_truthy visit.user_id
                then filled "filesOf" owner
                else message "files")
              ∷ [])
          ∷ button (message "root" ∷ []) true (go_to [])
          ∷ (for_each (crumbs_from [] (segments visit.address)) crumb
              ++ when (not (is_truthy visit.user_id)) (usage_card panel.usage)))

  -- The inputs for files and for a folder are there for every user; the style makes them invisible.
  unfoldable pub toolbar : Browser → List (Widget BrowserEvent)
  toolbar b =
      button (message "refresh" ∷ []) true refresh
      ∷ (when (may_write visit) (
            button (message "upload" ∷ []) true choose_files
            ∷ button (message "uploadFolder" ∷ []) true choose_files
            ∷ button (message "newFolder" ∷ []) true (ask_name mkdir none)
            ∷ [])
          ++ (when (not (is_empty b.panel.selected)) (
                button
                  (message "downloadSelected"
                    ∷ raw (units " (" ++ (decimal (length b.panel.selected) ++ units ")"))
                    ∷ [])
                  true download_selected
                ∷ [])
              ++ (field (message "search" ∷ []) b.query type_query
                  ∷ box (message "showHidden" ∷ []) b.hidden tick_hidden
                  ∷ file_input
                  ∷ file_input
                  ∷ when (may_write visit) (shows (message "dropFiles" ∷ []) ∷ []))))

  abbrev pub upload_bar : UploadTask → List (Widget BrowserEvent)
  upload_bar task =
      shows (raw task.relative_path ∷ []) ∷ bar (bar_percent visit.floats task.state) ∷ []

  unfoldable pub nothing_listed : Browser → List (Widget BrowserEvent)
  nothing_listed b =
      shows (message (if is_truthy b.query then "noResults" else "empty") ∷ [])
      ∷ when (may_write visit) (
          button (message "upload" ∷ []) true choose_files
          ∷ button (message "newFolder" ∷ []) true (ask_name mkdir none)
          ∷ [])

  unfoldable pub list_head : Browser → List (Widget BrowserEvent)
  list_head b =
      button (message "name" ∷ raw (sort_mark by_name b.sorting) ∷ []) true (sort_by by_name)
      ∷ button (message "size" ∷ raw (sort_mark by_size b.sorting) ∷ []) true (sort_by by_size)
      ∷ button (message "modified" ∷ raw (sort_mark by_modified b.sorting) ∷ []) true
          (sort_by by_modified)
      ∷ shows (message "actions" ∷ [])
      ∷ []

  unfoldable pub row_buttons : Entry → List (Widget BrowserEvent)
  row_buttons entry =
      button (message "download" ∷ []) true (select_option entry download_row)
      ∷ when (may_write visit) (
          button (message "rename" ∷ []) true (ask_name rename_entry (some entry))
          ∷ button (message "move" ∷ []) true (ask_move entry)
          ∷ button (message "copy" ∷ []) true (ask_name copy (some entry))
          ∷ button (message "delete" ∷ []) true (ask_delete entry)
          ∷ [])

  unfoldable pub row : Browser → Entry → List (Widget BrowserEvent)
  row b entry =
      box [] (any (text_eq entry.name) b.panel.selected) (λ value. select_row entry.name)
      ∷ button (message (if entry.directory then "folder" else "file") ∷ raw entry.name ∷ []) true
          (open_entry entry)
      ∷ shows (raw (if entry.directory then units "—" else format_size entry.size) ∷ [])
      ∷ shows (raw (visit.date entry.modified) ∷ [])
      ∷ (row_buttons entry
          ++ choice (raw (units "⋯") ∷ []) (
              map (λ key. (row_label key, select_option entry key)) (row_options (may_write visit)))
            ∷ [])

  abbrev pub shown_rows : Browser → List Entry
  shown_rows b = rows visit.platform b.hidden b.query b.sorting b.panel.entries

  unfoldable pub listing : Browser → List (Widget BrowserEvent)
  listing b =
      if is_empty (shown_rows b) && not b.panel.loading
      then nothing_listed b
      else list_head b ++ for_each (shown_rows b) (row b)

  -- Each dialog has the button of the platform that closes it; the enter key in a field is the button that
  -- saves.
  unfoldable pub dialogs_shown : Browser → List (Widget BrowserEvent)
  dialogs_shown b =
      when b.dialogs.name_modal (
        shows (message (name_title b.dialogs.name_action) ∷ [])
        ∷ button [] true cancel_name
        ∷ field (message (name_hint b.dialogs.name_action) ∷ []) b.dialogs.name_value type_name
        ∷ button (message "cancel" ∷ []) true cancel_name
        ∷ button (message "save" ∷ []) true save_name
        ∷ [])
      ++ (when b.dialogs.move_modal (
            shows (message "move" ∷ [])
            ∷ button [] true cancel_move
            ∷ field (filled "moveTo" (name_of b.dialogs.move_target) ∷ []) b.dialogs.move_value
                type_move
            ∷ button (message "cancel" ∷ []) true cancel_move
            ∷ button (message "save" ∷ []) true save_move
            ∷ [])
          ++ when b.dialogs.delete_modal (
              shows (message "delete" ∷ [])
              ∷ button [] true cancel_delete
              ∷ shows (filled "confirmDelete" (name_of b.dialogs.delete_target) ∷ [])
              ∷ button (message "cancel" ∷ []) true cancel_delete
              ∷ button (message "delete" ∷ []) true do_delete
              ∷ []))

  unfoldable pub question_shown : Question → List (Widget BrowserEvent)
  question_shown question = when question.modal (
      shows (message "conflict" ∷ [])
      ∷ button [] true dismiss_answer
      ∷ shows (filled "conflictQuestion" question.name ∷ [])
      ∷ choice [] (
          (message "conflictRename" ∷ [], choose_answer rename)
          ∷ (message "conflictOverwrite" ∷ [], choose_answer overwrite)
          ∷ (message "conflictSkip" ∷ [], choose_answer skip)
          ∷ [])
      ∷ box (message "conflictApplyAll" ∷ []) question.apply_all tick_all
      ∷ button (message "cancel" ∷ []) true cancel_answer
      ∷ button (message "save" ∷ []) true save_answer
      ∷ [])

  -- The whole; the overlay of a preview stands in Preview/Overlay.
  unfoldable pub screen : Browser → List (Widget BrowserEvent)
  screen b =
      alerts b.panel
      ++ (heading b.panel
          ++ (toolbar b
              ++ (for_each b.panel.upload_tasks upload_bar
                  ++ (listing b ++ (dialogs_shown b ++ question_shown b.question)))))
