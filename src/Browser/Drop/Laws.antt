-- ===== src/Browser/Drop/Laws.antt =====
-- What is collected of a dropped entry (web/src/views/FileBrowserView.vue).
use easy_webdav.Prelude.{
  ◌≡◌, refl, sym, ap, ◌∙◌, List, [], ◌∷◌, ◌++◌, Text, text_eq, any, Without, split_from-slash,
  split_from-word, All, All-append,
}
use mathlib.Core.List.{append-nil, append_assoc}
use easy_webdav.Api.Types.{Entry}
use easy_webdav.Browser.Conflicts.{Picked, top_of, has_conflict}
use easy_webdav.Browser.Drop.{
  FileTree, leaf, node, Children, no_more, child, collect_entry, collect_children,
}

-- The files of a tree, from left to right, each with the path that leads to it.
mutual
  pub leaves : FileTree → Text → List Picked
  leaves (leaf file) prefix = record { file = file; relative_path = prefix ++ file.name } ∷ []
  leaves (node name children) prefix = child_leaves children (prefix ++ (name ++ b'/' ∷ []))

  pub child_leaves : Children → Text → List Picked
  child_leaves no_more prefix = []
  child_leaves (child entry children) prefix = leaves entry prefix ++ child_leaves children prefix

mutual
  unfolding collect_entry collect_children leaves child_leaves

  collect_entry-leaves :
      (entry : FileTree) (prefix : Text) (out : List Picked)
      → collect_entry entry prefix out ≡ out ++ leaves entry prefix
  collect_entry-leaves (leaf file) prefix out = refl
  collect_entry-leaves (node name children) prefix out =
      collect_children-leaves children (prefix ++ (name ++ b'/' ∷ [])) out

  collect_children-leaves :
      (children : Children) (prefix : Text) (out : List Picked)
      → collect_children children prefix out ≡ out ++ child_leaves children prefix
  collect_children-leaves no_more prefix out = sym (append-nil out)
  collect_children-leaves (child entry children) prefix out =
      collect_children-leaves children prefix (collect_entry entry prefix out)
      ∙ ap (λ before. before ++ child_leaves children prefix)
          (collect_entry-leaves entry prefix out)
      ∙ append_assoc out (leaves entry prefix) (child_leaves children prefix)

-- A path with a beginning.
abbrev pub StartsWith : Text → Picked → Type 0
StartsWith prefix item = (rest : Text) × (item.relative_path ≡ prefix ++ rest)

All-weaken :
    (prefix more : Text) (items : List Picked)
    → All (StartsWith (prefix ++ more)) items
    → All (StartsWith prefix) items
All-weaken prefix more [] h = tt
All-weaken prefix more (item ∷ items) ((rest, e), h) =
    ((more ++ rest, e ∙ append_assoc prefix more rest), All-weaken prefix more items h)

mutual
  unfolding leaves child_leaves

  leaves-StartsWith :
      (entry : FileTree) (prefix : Text) → All (StartsWith prefix) (leaves entry prefix)
  leaves-StartsWith (leaf file) prefix = ((file.name, refl), tt)
  leaves-StartsWith (node name children) prefix =
      All-weaken prefix (name ++ b'/' ∷ []) (child_leaves children (prefix ++ (name ++ b'/' ∷ [])))
        (child_leaves-StartsWith children (prefix ++ (name ++ b'/' ∷ [])))

  child_leaves-StartsWith :
      (children : Children) (prefix : Text) → All (StartsWith prefix) (child_leaves children prefix)
  child_leaves-StartsWith no_more prefix = tt
  child_leaves-StartsWith (child entry children) prefix =
      All-append (StartsWith prefix) (leaves entry prefix) (child_leaves children prefix)
        (leaves-StartsWith entry prefix) (child_leaves-StartsWith children prefix)

-- The name of a dropped entry.
abbrev pub root_name : FileTree → Text
root_name (leaf file) = file.name
root_name (node name children) = name

abbrev pub HasTop : Text → Picked → Type 0
HasTop name item = top_of item.relative_path ≡ name

-- What `top_of` takes of the parts.
abbrev first_part : List Text → Text
first_part parts = elim parts [ [] ↦ [] | top ∷ rest ↦ top ]

top_of-StartsWith :
    (name : Text) (items : List Picked)
    → Without b'/' name
    → All (StartsWith (name ++ b'/' ∷ [])) items
    → All (HasTop name) items
unfolding top_of
top_of-StartsWith name [] w h = tt
top_of-StartsWith name (item ∷ items) w ((rest, e), h) = (
  ap top_of (e ∙ append_assoc name (b'/' ∷ []) rest)
      ∙ ap first_part (split_from-slash [] name rest w),
  top_of-StartsWith name items w h,
)

leaves-HasTop :
    (entry : FileTree)
    → Without b'/' (root_name entry)
    → All (HasTop (root_name entry)) (leaves entry [])
unfolding leaves top_of
leaves-HasTop (leaf file) w = (ap first_part (split_from-word [] file.name w), tt)
leaves-HasTop (node name children) w =
    top_of-StartsWith name (child_leaves children (name ++ b'/' ∷ [])) w
      (child_leaves-StartsWith children (name ++ b'/' ∷ []))

-- Whether the listing has an entry of a name.
abbrev pub ClashesAs : List Entry → Text → Picked → Type 0
ClashesAs entries name item =
    has_conflict entries item.relative_path ≡ any (λ entry. text_eq entry.name name) entries

HasTop-ClashesAs :
    (entries : List Entry) (name : Text) (items : List Picked)
    → All (HasTop name) items
    → All (ClashesAs entries name) items
unfolding has_conflict
HasTop-ClashesAs entries name [] h = tt
HasTop-ClashesAs entries name (item ∷ items) (e, h) = (
  ap (λ top. any (λ entry. text_eq entry.name top) entries) e,
  HasTop-ClashesAs entries name items h,
)

-- Of a dropped entry exactly the files below it are collected, from left to right, each with the path
-- that leads to it from the entry; and for an entry whose name has no slash, every one of them is in
-- conflict exactly if the listing has an entry of that name.
pub collect_entry_lem :
    (entry : FileTree) (entries : List Entry)
    → Without b'/' (root_name entry)
    → (collect_entry entry [] [] ≡ leaves entry [])
      × All (ClashesAs entries (root_name entry)) (collect_entry entry [] [])
collect_entry_lem entry entries w =
    let same = collect_entry-leaves entry [] [] in
    (
      same,
      rw (same)
          (HasTop-ClashesAs entries (root_name entry) (leaves entry []) (leaves-HasTop entry w)),
    )
