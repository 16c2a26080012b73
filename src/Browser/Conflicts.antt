-- ===== src/Browser/Conflicts.antt =====
-- web/src/views/FileBrowserView.vue, lines 231-270: which of the picked files are uploaded, and what is
-- to happen where the directory has a file of that name.
pub mod Choices
use easy_webdav.Prelude.{
  ℕ, suc, Bool, true, false, List, [], ◌∷◌, Option, none, some, Text, text_eq, split_slash, any,
  if◌then◌else◌, ◌++◌,
}
use easy_webdav.Api.Types.{Entry}
use easy_webdav.Upload.Session.{
  ConflictChoice, overwrite, skip, rename, UploadFile, UploadTask, create_task,
}

pub record Picked : Type 0 where
  pub file : UploadFile
  pub relative_path : Text

-- `relativePath.split('/')[0]`.
unfoldable pub top_of : Text → Text
top_of path = elim (split_slash path) [ [] ↦ [] | top ∷ rest ↦ top ]

unfoldable pub has_conflict : List Entry → Text → Bool
has_conflict entries path = any (λ entry. text_eq entry.name (top_of path)) entries

-- What the user answers to the question: a choice, or nothing on cancel, and the box for all others.
pub record ConflictAnswer : Type 0 where
  pub choice : Option ConflictChoice
  pub apply_all : Bool

-- The task of an item under a choice; none for one that is skipped.
unfoldable pub task_for : Picked → Option ConflictChoice → List UploadTask
task_for item none = []
task_for item (some skip) = []
task_for item (some overwrite) = create_task item.file item.relative_path overwrite ∷ []
task_for item (some rename) = create_task item.file item.relative_path rename ∷ []

-- `if (conflictApplyAll.value && choice) applyAll = choice`.
abbrev pub remembered : ConflictAnswer → Option ConflictChoice
remembered answer = if answer.apply_all then answer.choice else none

-- The loop over the picked items. `ask n` is the answer to the question with that number.
module _ (entries : List Entry) (ask : ℕ → ConflictAnswer) where
  unfoldable pub plan : ℕ → Option ConflictChoice → List Picked → List UploadTask
  plan asked apply_all [] = []
  plan asked apply_all (item ∷ picked) = elim (has_conflict entries item.relative_path) [
    | false ↦ create_task item.file item.relative_path rename ∷ plan asked apply_all picked
    | true ↦ elim apply_all [
      | some choice ↦ task_for item (some choice) ++ plan asked (some choice) picked
      | none ↦ task_for item (ask asked).choice ++ plan (suc asked) (remembered (ask asked)) picked
    ]
  ]

  unfoldable pub planned : List Picked → List UploadTask
  planned picked = plan 0 none picked
