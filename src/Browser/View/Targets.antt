-- ===== src/Browser/View/Targets.antt =====
-- web/src/views/FileBrowserView.vue: which files the requests of the view change.
mod Shown
pub mod Runs
use easy_webdav.Prelude.{
  ◌≡◌, refl, sym, ◌∙◌, Bool, true, false, not, ◌&&◌, List, [], ◌∷◌, ◌++◌, Option, none, some, Text,
  All, if◌then◌else◌, arith, Bool-cases, inl, inr, map, IsSegment, is_truthy, trim, ◌==◌,
}
use easy_webdav.Api.Problem.{Reply, ok, err}
use easy_webdav.Api.Types.{Entry}
use easy_webdav.Screen.{
  Widget, Offers, Only, AllOptions, Offers-Only, Only-append, Only-when, Only-if, Only-for_each,
  Only-for_each_of, when, for_each,
}
use easy_webdav.Browser.Path.{join, segments}
use easy_webdav.Browser.Listing.{rows}
use easy_webdav.Browser.Listing.Order.{rows-All}
use easy_webdav.Browser.Panel.{
  Panel, UsageAnswers, reload, browse, finish_browse, begin_browse, load_usage, apply_overview,
  usage_of,
}
use easy_webdav.Browser.Panel.Dialogs.{
  FileAction, make_directory, move_file, copy_file, delete_file, NameAction, mkdir, rename, copy,
  Dialogs, ActionAnswers, action, name_of, name_request, move_request, delete_request, RowKey,
  row_options, download_row, rename_row, move_row, copy_row, delete_row, prompt_name, prompt_move,
  prompt_delete,
}
use easy_webdav.Browser.Refs.{Visit, may_write, Browser, Question}
use easy_webdav.Browser.View.{
  BrowserEvent, Sent, press, row_action, resolve_conflict, ask_conflict, drag_over, drag_leave,
  drop_files, pick_files, new_browser, lists, acts, uploads, pushes, assigns, stores_hidden,
  answers, assigned, sent_if, do_delete, open_entry, save_move, save_name, select_option,
}
use easy_webdav.Browser.View.Template.{
  screen, alerts, heading, usage_card, crumb, crumbs_from, toolbar, upload_bar, nothing_listed,
  list_head, row_label, row_buttons, row, listing, dialogs_shown, question_shown, is_empty,
  shown_rows,
}
use easy_webdav.Browser.View.Steps.{
  Answer, receive, Cause, Step, Reach, reloaded, named, moved, deleted, uploads_ended,
}

-- `Listed` are the entries that the server has listed: what holds of every entry of an answer.
module _ (Listed : Entry → Type 0) where
  abbrev pub AreListed : Reply (List Entry) → Type 0
  AreListed (ok entries) = All Listed entries
  AreListed (err problem) = Unit

  abbrev pub Brings : Answer → Type 0
  Brings (reloaded reply usage) = AreListed reply
  Brings (named replies) = AreListed replies.listing
  Brings (moved replies) = AreListed replies.listing
  Brings (deleted replies) = AreListed replies.listing
  Brings (uploads_ended all_well reply usage) = AreListed reply
  Brings _ = Unit

  abbrev OnEntry : Option Entry → Type 0
  OnEntry none = ⊥
  OnEntry (some entry) = Listed entry

  abbrev NameTarget : NameAction → Option Entry → Type 0
  NameTarget mkdir target = Unit
  NameTarget rename target = OnEntry target
  NameTarget copy target = OnEntry target

  -- The entries are listed, and so is the target of an open dialog.
  abbrev IsAimed : Browser → Type 0
  IsAimed b =
      All Listed b.panel.entries
      × NameTarget b.dialogs.name_action b.dialogs.name_target
      × (b.dialogs.move_modal ≡ true → OnEntry b.dialogs.move_target)
      × (b.dialogs.delete_modal ≡ true → OnEntry b.dialogs.delete_target)

  module _ (visit : Visit) where
    -- The path that a listed entry's name has in the shown directory.
    abbrev pub IsEntryPath : Text → Type 0
    IsEntryPath path = (entry : Entry) × Listed entry × (path ≡ join visit.address entry.name)

    -- The file that a request moves, copies or deletes is such an entry.
    abbrev pub Hits : FileAction → Type 0
    Hits (make_directory path) = Unit
    Hits (move_file path destination) = IsEntryPath path
    Hits (copy_file path destination) = IsEntryPath path
    Hits (delete_file path) = IsEntryPath path

    abbrev pub IsHitting : Sent → Type 0
    IsHitting (acts request) = Hits request
    IsHitting _ = Unit

    target-IsEntryPath :
        (target : Option Entry) → OnEntry target → IsEntryPath (join visit.address (name_of target))
    unfolding name_of
    target-IsEntryPath none h = absurd h
    target-IsEntryPath (some entry) h = (entry, h, refl)

    assigned-IsHitting : (address : Option Text) → All IsHitting (assigned address)
    assigned-IsHitting none = tt
    assigned-IsHitting (some address) = (tt, tt)

    sent_if-IsHitting :
        (test : Bool) (request : FileAction)
        → Hits request
        → All IsHitting (sent_if (if test then some request else none))
    sent_if-IsHitting true request h = (h, tt)
    sent_if-IsHitting false request h = tt

    name_action-Hits :
        (kind : NameAction) (target : Option Entry) (path : Text)
        → NameTarget kind target
        → Hits (elim kind [
          | mkdir ↦ make_directory path
          | rename ↦ move_file (join visit.address (name_of target)) path
          | copy ↦ copy_file (join visit.address (name_of target)) path
        ])
    name_action-Hits mkdir target path h = tt
    name_action-Hits rename target path h = target-IsEntryPath target h
    name_action-Hits copy target path h = target-IsEntryPath target h

    module _ (b : Browser) (aimed : IsAimed b) where
      -- What an event does from here.
      abbrev Keeps : BrowserEvent → Type 0
      Keeps e = IsAimed (press visit e b).0 × All IsHitting (press visit e b).1

      save_name-Keeps : Keeps save_name
      unfolding press name_request
      save_name-Keeps = (
        aimed,
        sent_if-IsHitting (is_truthy (trim b.dialogs.name_value)) _ (
            name_action-Hits b.dialogs.name_action b.dialogs.name_target
              (join visit.address (trim b.dialogs.name_value)) aimed.1),
      )

      save_move-Keeps : b.dialogs.move_modal ≡ true → Keeps save_move
      unfolding press move_request
      save_move-Keeps shown = (
        aimed,
        sent_if-IsHitting (is_truthy (trim b.dialogs.move_value)) _
            (target-IsEntryPath b.dialogs.move_target (aimed.2 shown)),
      )

      do_delete-Keeps : b.dialogs.delete_modal ≡ true → Keeps do_delete
      unfolding press delete_request
      do_delete-Keeps shown =
          (aimed, (target-IsEntryPath b.dialogs.delete_target (aimed.3 shown), tt))

      -- The events of a row, for an entry that is listed.
      module _ (entry : Entry) (is_named : Listed entry) where
        open-Keeps : Keeps (open_entry entry)
        unfolding press
        open-Keeps = elim (Bool-cases entry.directory) [
          | inl e ↦ rw e (aimed, (tt, tt))
          | inr e ↦ rw e (aimed, tt)
        ]

        option-Keeps : (key : RowKey) → Keeps (select_option entry key)
        unfolding press row_action prompt_name prompt_move prompt_delete
        option-Keeps download_row = (aimed, assigned-IsHitting _)
        option-Keeps rename_row = ((aimed.0, is_named, aimed.2, aimed.3), tt)
        option-Keeps move_row = ((aimed.0, aimed.1, λ _. is_named, aimed.3), tt)
        option-Keeps copy_row = ((aimed.0, is_named, aimed.2, aimed.3), tt)
        option-Keeps delete_row = ((aimed.0, aimed.1, aimed.2, λ _. is_named), tt)

        options-Keeps :
            (keys : List RowKey)
            → AllOptions Keeps (map (λ key. (row_label key, select_option entry key)) keys)
        options-Keeps [] = tt
        options-Keeps (key ∷ keys) = (option-Keeps key, options-Keeps keys)

        row-Keeps : Only Keeps (row visit b entry)
        unfolding row row_buttons press prompt_name prompt_move prompt_delete
        row-Keeps = (
          λ _. (aimed, tt),
          (
            λ _. open-Keeps,
            (
              tt,
              (
                tt,
                Only-append Keeps (row_buttons visit entry) _
                    (
                      λ _. option-Keeps download_row,
                      Only-when Keeps (may_write visit) _ (λ _. (
                        λ _. ((aimed.0, is_named, aimed.2, aimed.3), tt),
                        (
                          λ _. ((aimed.0, aimed.1, λ _. is_named, aimed.3), tt),
                          (
                            λ _. ((aimed.0, is_named, aimed.2, aimed.3), tt),
                            (λ _. ((aimed.0, aimed.1, aimed.2, λ _. is_named), tt), tt),
                          ),
                        ),
                      )),
                    )
                    (options-Keeps (row_options (may_write visit)), tt),
              ),
            ),
          ),
        )
