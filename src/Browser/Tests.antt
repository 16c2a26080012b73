-- ===== src/Browser/Tests.antt =====
-- The file browser (web/src/views/FileBrowserView.vue) at concrete inputs.
use Prim.Native.Nat.{compare, Ordering}
use mathlib.Core.List.{Perm}
use easy_webdav.Prelude.{
  ℕ, ◌==◌, ==_iff, ◌≡◌, refl, ap, ◌∙◌, ◌≢◌, Bool, true, false, List, [], ◌∷◌, ◌++◌, none, some,
  Text, units, String, if◌then◌else◌, Without, All, IsSegment, map, keep, arith, text_eq,
}
use easy_webdav.Api.Types.{Entry}
use easy_webdav.Api.Url.{Encoders}
use easy_webdav.Messages.Locale.{to_lower_unit}
use easy_webdav.Preview.Overlay.{preview_path}
use easy_webdav.Upload.Session.{overwrite, rename, UploadFile, create_task}
use easy_webdav.Browser.Path.{
  parts, segments, join, go, go_tail, go_prefix, preview_props, current_path,
}
use easy_webdav.Browser.Path.Laws.{IsCodec, preview_path-ne-join}
use easy_webdav.Browser.Routing.{match_files, file_route}
use easy_webdav.Browser.Routing.Laws.{CanOpen, Shows, match_files-go}
use easy_webdav.Browser.Listing.{
  Platform, Sorting, by_name, by_size, set_sort, compare_entries, sort, insert, is_shown, rows,
}
use easy_webdav.Browser.Listing.Order.{IsTurning, DirectoriesFirst, InOrder, rows_lem}
use easy_webdav.Browser.Conflicts.{
  Picked, ConflictAnswer, plan, planned, task_for, has_conflict, top_of,
}
use easy_webdav.Browser.Conflicts.Choices.{IsSettled, planned-IsSettled, answered}

-- The slash and the percent sign escaped, as `encodeURIComponent` does among others.
escaped_unit : ℕ → Text → Text
escaped_unit c s =
    if c == b'/' then units "%2F" ++ s else if c == b'%' then units "%25" ++ s else c ∷ s

escaped : Text → Text
escaped [] = []
escaped (c ∷ s) = escaped_unit c (escaped s)

decoded : Text → Text
decoded [] = []
decoded (c ∷ []) = c ∷ []
decoded (c ∷ d ∷ []) = c ∷ d ∷ []
decoded (c ∷ d ∷ e ∷ s) =
    let code = (if e == b'F' then b'/' else b'%') ∷ decoded s in
    let plain = c ∷ decoded (d ∷ e ∷ s) in if c == b'%' then code else plain

decoded-plain : (c : ℕ) (s : Text) → (c == b'%') ≡ false → decoded (c ∷ s) ≡ c ∷ decoded s
unfolding decoded
decoded-plain c [] h = refl
decoded-plain c (d ∷ []) h = refl
decoded-plain c (d ∷ e ∷ s) h = rw (h) refl

escaped_unit-Without : (c : ℕ) (s : Text) → Without b'/' s → Without b'/' (escaped_unit c s)
unfolding escaped_unit
escaped_unit-Without c s h = ground (arith, ==_iff c b'/')

escaped-Without : (s : Text) → Without b'/' (escaped s)
unfolding escaped
escaped-Without [] = tt
escaped-Without (c ∷ s) = escaped_unit-Without c (escaped s) (escaped-Without s)

decoded-escaped_unit : (c : ℕ) (s : Text) → decoded (escaped_unit c s) ≡ c ∷ decoded s
unfolding decoded escaped_unit
decoded-escaped_unit c s = ground (arith, ==_iff c b'/', ==_iff c b'%', decoded-plain c s)

decoded-escaped : (s : Text) → decoded (escaped s) ≡ s
unfolding decoded escaped
decoded-escaped [] = refl
decoded-escaped (c ∷ s) = decoded-escaped_unit c (escaped s) ∙ ap (◌∷◌ c) (decoded-escaped s)

abbrev encoders : Encoders
encoders = record { component = escaped; form = escaped }

encoders-IsCodec : IsCodec encoders decoded
unfolding decoded
encoders-IsCodec = record {
  no_slash = escaped-Without;
  decode_encode = decoded-escaped;
  keeps_empty = refl;
  keeps_small = refl;
  keeps_large = refl;
}

abbrev shown : List Text
shown = units "music" ∷ units "50%" ∷ []

shown-All : All IsSegment shown
shown-All = ground arith

name-IsSegment : IsSegment (units "a")
name-IsSegment = ground arith

address : go encoders (units "7") (units "music/50%") ≡ units "/files/u/7/music/50%25"
unfolding go go_tail go_prefix escaped escaped_unit
address = refl

false-true : false ≡ true → ⊥
false-true e = cc

shown-CanOpen : CanOpen decoded [] shown
shown-CanOpen = (
  λ e. false-true (ap (λ s. text_eq s (units "u")) e),
  λ e. false-true (ap (λ s. text_eq s (units "U")) e),
)

match_files-go_example :
    Shows
      (match_files decoded (go encoders [] (join (parts shown) (units "a"))))
      []
      (shown ++ units "a" ∷ [])
match_files-go_example =
    match_files-go encoders decoded encoders-IsCodec [] shown (units "a") shown-CanOpen shown-All
      name-IsSegment

-- A directory `u` has the addresses of other users below it.
directory_u :
    match_files decoded (go encoders [] (join (parts (units "u" ∷ [])) (units "alice")))
    ≡ some (record { name = units "user-files"; user_param = units "alice"; path_match = parts [] })
unfolding match_files file_route go go_tail go_prefix join current_path segments escaped
    escaped_unit decoded
directory_u = refl

abbrev entry : String → Bool → ℕ → Entry
entry name directory size = record {
  name = units name;
  directory = directory;
  size = size;
  modified = [];
}

preview_path-ne-join_example :
    preview_path (preview_props (entry "a" false 1) [] []) ≢ join (parts shown) (units "a")
preview_path-ne-join_example =
    preview_path-ne-join (units "music") (units "50%" ∷ []) (entry "a" false 1) [] [] shown-All
      name-IsSegment

abbrev turned : Ordering → Ordering → Ordering
turned Ordering.eq o = o
turned o _ = o

-- Names compared by their units.
by_units : Text → Text → Ordering
by_units [] [] = Ordering.eq
by_units [] (_ ∷ _) = Ordering.lt
by_units (_ ∷ _) [] = Ordering.gt
by_units (c ∷ s) (d ∷ t) = turned (compare c d) (by_units s t)

abbrev platform : Platform
platform = record { collate = by_units; time = λ _. none; lower = map to_lower_unit }

platform-IsTurning : IsTurning platform
unfolding by_units
platform-IsTurning [] [] = refl
platform-IsTurning [] (d ∷ t) = refl
platform-IsTurning (c ∷ s) [] = refl
platform-IsTurning (c ∷ s) (d ∷ t) = ground (arith, platform-IsTurning s t)

abbrev listed : List Entry
listed =
    entry "b.txt" false 3 ∷ entry ".git" true 0 ∷ entry "docs" true 0 ∷ entry "A.txt" false 9 ∷ []

abbrev largest_first : Sorting
largest_first = record { key = by_size; ascending = false }

sorted_rows :
    rows platform false [] largest_first listed
    ≡ entry "docs" true 0 ∷ entry "A.txt" false 9 ∷ entry "b.txt" false 3 ∷ []
unfolding rows is_shown sort insert compare_entries to_lower_unit by_units
sorted_rows = refl

size_then_size :
    set_sort by_size (set_sort by_size (record { key = by_name; ascending = true })) ≡ largest_first
unfolding set_sort
size_then_size = refl

rows_lem_example :
    Perm (rows platform false [] largest_first listed) (keep (is_shown platform false []) listed)
    × DirectoriesFirst (rows platform false [] largest_first listed)
    × InOrder (compare_entries platform largest_first) (rows platform false [] largest_first listed)
rows_lem_example = rows_lem platform false [] largest_first listed platform-IsTurning

abbrev blob : String → UploadFile
blob name = record { name = units name; size = 5 }

abbrev picked : List Picked
picked =
    record { file = blob "b.txt"; relative_path = units "b.txt" }
    ∷ record { file = blob "x"; relative_path = units "docs/x" }
    ∷ record { file = blob "new"; relative_path = units "new" }
    ∷ []

abbrev replies : ℕ → ConflictAnswer
replies n =
    if n == 0
    then record { choice = some overwrite; apply_all = false }
    else record { choice = none; apply_all = true }

-- The first is overwritten, the second is dropped by cancelling, the third needs no question.
planned_tasks :
    planned listed replies picked
    ≡ create_task (blob "b.txt") (units "b.txt") overwrite
      ∷ create_task (blob "new") (units "new") rename
      ∷ []
unfolding planned plan task_for has_conflict top_of create_task
planned_tasks = refl

planned-IsSettled_example :
    (planned listed replies picked ≡ answered listed replies 0 picked)
    × All (IsSettled listed replies) (planned listed replies picked)
planned-IsSettled_example = planned-IsSettled listed replies picked
