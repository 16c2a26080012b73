-- ===== src/Browser/Drop.antt =====
-- web/src/views/FileBrowserView.vue, lines 294-345: the files that are dropped or picked. A file system
-- entry of the platform is a file or a directory with what its reader gives.
pub mod Laws
use easy_webdav.Prelude.{List, [], ◌∷◌, ◌++◌, Option, none, some, Text, or_else, map}
use easy_webdav.Upload.Session.{UploadFile}
use easy_webdav.Browser.Conflicts.{Picked}

-- The loop of `readEntries`, over the batches that the reader answers with; it ends at an empty one.
unfoldable pub read_entries {ℓ} : {A : Type ℓ} → List (List A) → List A
read_entries [] = []
read_entries ([] ∷ batches) = []
read_entries ((entry ∷ batch) ∷ batches) = (entry ∷ batch) ++ read_entries batches

-- The children of a directory are what `readEntries` gives of them.
mutual
  pub data FileTree : Type 0 where
    leaf : UploadFile → FileTree
    node : Text → Children → FileTree

  pub data Children : Type 0 where
    no_more : Children
    child : FileTree → Children → Children

unfoldable mutual
  pub collect_entry : FileTree → Text → List Picked → List Picked
  collect_entry (leaf file) prefix out =
      out ++ record { file = file; relative_path = prefix ++ file.name } ∷ []
  collect_entry (node name children) prefix out =
      collect_children children (prefix ++ (name ++ b'/' ∷ [])) out

  pub collect_children : Children → Text → List Picked → List Picked
  collect_children no_more prefix out = out
  collect_children (child entry children) prefix out =
      collect_children children prefix (collect_entry entry prefix out)

-- A file of a list, with its `webkitRelativePath`, empty if it has none.
pub record ListedFile : Type 0 where
  pub file : UploadFile
  pub webkit_relative_path : Text

-- `webkitRelativePath || name`.
unfoldable pub pick_listed : ListedFile → Picked
pick_listed item = record {
  file = item.file;
  relative_path = or_else item.webkit_relative_path item.file.name;
}

unfoldable pub pick_plain : ListedFile → Picked
pick_plain item = record { file = item.file; relative_path = item.file.name }

-- `event.dataTransfer`: the entries of its items where the platform gives entries, and its files.
pub record Transfer : Type 0 where
  pub items : Option (List (Option FileTree))
  pub files : List ListedFile

unfoldable pub collect_items : List (Option FileTree) → List Picked → List Picked
collect_items [] out = out
collect_items (none ∷ items) out = collect_items items out
collect_items (some entry ∷ items) out = collect_items items (collect_entry entry [] out)

unfoldable pub dropped_items : Transfer → List Picked
dropped_items transfer = elim transfer.items [
  | some (item ∷ items) ↦ collect_items (item ∷ items) []
  | _ ↦ map pick_listed transfer.files
]

-- What `onDrop` and `onPick` hand to `uploadPicked`.
unfoldable pub on_drop : Transfer → List Picked
on_drop transfer = elim (dropped_items transfer) [
  | [] ↦ map pick_plain transfer.files
  | item ∷ picked ↦ item ∷ picked
]

unfoldable pub on_pick : List ListedFile → List Picked
on_pick files = map pick_listed files
