-- ===== src/Browser/Listing/Selection.antt =====
-- The selection and the sorting of web/src/views/FileBrowserView.vue.
use easy_webdav.Prelude.{
  ◌≡◌, Bool, false, not, ◌||◌, List, [], ◌∷◌, ◌++◌, Text, text_eq, text_eq_iff, any, keep,
  if◌then◌else◌, arith,
}
use easy_webdav.Browser.Listing.{toggle_select}

-- Whether a name is selected.
abbrev pub selects : Text → List Text → Bool
selects name selected = any (text_eq name) selected

selects-keep :
    (name other : Text) (selected : List Text)
    → selects other (keep (λ item. not (text_eq item name)) selected)
      ≡ (if text_eq other name then false else selects other selected)
selects-keep name other [] = ground arith
selects-keep name other (item ∷ selected) = ground (
  arith,
  text_eq_iff other item,
  text_eq_iff item name,
  text_eq_iff other name,
  selects-keep name other selected,
)

selects-append :
    (name other : Text) (selected : List Text)
    → selects other (selected ++ name ∷ []) ≡ (selects other selected || text_eq other name)
selects-append name other [] = ground arith
selects-append name other (item ∷ selected) = ground (arith, selects-append name other selected)

-- A click on a row's box turns the selection of that name round and leaves that of every other name.
pub selects-toggle_select :
    (name other : Text) (selected : List Text)
    → selects other (toggle_select name selected)
      ≡ (if text_eq other name then not (selects name selected) else selects other selected)
unfolding toggle_select
selects-toggle_select name other selected = ground (
  arith,
  text_eq_iff other name,
  selects-keep name other selected,
  selects-append name other selected,
)
