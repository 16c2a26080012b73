-- ===== src/Browser/Listing.antt =====
-- web/src/views/FileBrowserView.vue, lines 60-70, 80-82 and 103-112: the rows, their order, and the
-- selection. `localeCompare`, `toLowerCase` and the reading of dates belong to the platform.
pub mod Order
pub mod Selection
use Prim.Native.Nat.{compare, Ordering}
use easy_webdav.Prelude.{
  ℕ, Bool, true, false, ◌&&◌, ◌||◌, not, List, [], ◌∷◌, ◌++◌, Option, none, some, Text, units,
  text_eq, any, keep, if◌then◌else◌, starts_with,
}
use easy_webdav.Api.Types.{Entry}

pub data SortKey : Type 0 where
  by_name by_size by_modified : SortKey

-- `sortKey` and `sortDirection`; `ascending` stands for the direction 1 and its negation for -1.
pub record Sorting : Type 0 where
  pub key : SortKey
  pub ascending : Bool

abbrev pub same_key : SortKey → SortKey → Bool
same_key by_name by_name = true
same_key by_size by_size = true
same_key by_modified by_modified = true
same_key _ _ = false

unfoldable pub set_sort : SortKey → Sorting → Sorting
set_sort key sorting =
    if same_key sorting.key key
    then record sorting { ascending = not sorting.ascending }
    else record { key = key; ascending = true }

unfoldable pub sort_mark : SortKey → Sorting → Text
sort_mark key sorting =
    if same_key sorting.key key then (if sorting.ascending then units " ▲" else units " ▼") else []

-- `time` is `new Date(s).getTime()`, and `none` for NaN, which a sort takes for no difference.
pub record Platform : Type 0 where
  pub collate : Text → Text → Ordering
  pub time : Text → Option ℕ
  pub lower : Text → Text

abbrev pub flip : Ordering → Ordering
flip Ordering.lt = Ordering.gt
flip Ordering.eq = Ordering.eq
flip Ordering.gt = Ordering.lt

-- `difference * sortDirection.value`, by its sign.
abbrev pub directed : Bool → Ordering → Ordering
directed true o = o
directed false o = flip o

abbrev pub compare_times : Option ℕ → Option ℕ → Ordering
compare_times (some a) (some b) = compare a b
compare_times _ _ = Ordering.eq

abbrev pub compare_by : Platform → SortKey → Entry → Entry → Ordering
compare_by platform by_size left right = compare left.size right.size
compare_by platform by_modified left right =
    compare_times (platform.time left.modified) (platform.time right.modified)
compare_by platform by_name left right = platform.collate left.name right.name

-- The function that `sort` is given, by the sign of its result.
unfoldable pub compare_entries : Platform → Sorting → Entry → Entry → Ordering
compare_entries platform sorting left right = elim left.directory [
  | true ↦ elim right.directory [
    | true ↦ directed sorting.ascending (compare_by platform sorting.key left right)
    | false ↦ Ordering.lt
  ]
  | false ↦ elim right.directory [
    | true ↦ Ordering.gt
    | false ↦ directed sorting.ascending (compare_by platform sorting.key left right)
  ]
]

-- `Array.prototype.sort` is stable: an element goes before the first that is not smaller.
module _ (order : Entry → Entry → Ordering) where
  unfoldable pub insert : Entry → List Entry → List Entry
  insert x [] = x ∷ []
  insert x (y ∷ ys) = elim (order x y) [ Ordering.gt ↦ y ∷ insert x ys | _ ↦ x ∷ y ∷ ys ]

  unfoldable pub sort : List Entry → List Entry
  unfolding insert
  sort [] = []
  sort (x ∷ xs) = insert x (sort xs)

-- `text.includes(part)`.
abbrev pub contains : Text → Text → Bool
contains part [] = starts_with part []
contains part (c ∷ s) = starts_with part (c ∷ s) || contains part s

-- The two filters.
unfoldable pub is_shown : Platform → Bool → Text → Entry → Bool
is_shown platform hidden query entry =
    (hidden || not (starts_with (units ".") entry.name))
    && contains (platform.lower query) (platform.lower entry.name)

unfoldable pub rows : Platform → Bool → Text → Sorting → List Entry → List Entry
rows platform hidden query sorting entries =
    sort (compare_entries platform sorting) (keep (is_shown platform hidden query) entries)

unfoldable pub toggle_select : Text → List Text → List Text
toggle_select name selected =
    if any (text_eq name) selected
    then keep (λ item. not (text_eq item name)) selected
    else selected ++ name ∷ []
