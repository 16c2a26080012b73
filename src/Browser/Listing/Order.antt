-- ===== src/Browser/Listing/Order.antt =====
-- The order of the rows (web/src/views/FileBrowserView.vue).
use Prim.Native.Nat.{compare, Ordering}
use mathlib.Core.List.{Perm}
use mathlib.Core.List.Perm
use easy_webdav.Prelude.{
  ℕ, ◌≡◌, refl, ◌≢◌, ◌⊎◌, inl, inr, Bool, false, List, [], ◌∷◌, Option, none, some, Text, keep, All,
  arith, Bool-cases,
}
use easy_webdav.Api.Types.{Entry}
use easy_webdav.Browser.Listing.{
  Platform, Sorting, SortKey, by_name, by_size, by_modified, compare_entries, compare_by,
  compare_times, flip, insert, sort, is_shown, rows,
}

Ordering-cases : (o : Ordering) → (o ≡ Ordering.gt) ⊎ (o ≢ Ordering.gt)
Ordering-cases Ordering.lt = inr (λ e. cc)
Ordering-cases Ordering.eq = inr (λ e. cc)
Ordering-cases Ordering.gt = inl refl

module _ (order : Entry → Entry → Ordering) where
  insert-gt :
      (x y : Entry) (ys : List Entry)
      → order x y ≡ Ordering.gt
      → insert order x (y ∷ ys) ≡ y ∷ insert order x ys
  unfolding insert
  insert-gt x y ys e = rw (e, insert)

  insert-stop :
      (x y : Entry) (ys : List Entry)
      → order x y ≢ Ordering.gt
      → insert order x (y ∷ ys) ≡ x ∷ y ∷ ys
  unfolding insert
  insert-stop x y ys h = ground arith

  insert-perm : (x : Entry) (xs : List Entry) → Perm (insert order x xs) (x ∷ xs)
  unfolding insert
  insert-perm x [] = Perm.refl (x ∷ [])
  insert-perm x (y ∷ ys) = elim (Ordering-cases (order x y)) [
    | inl e ↦
        rw (insert-gt x y ys e) (Perm.trans (Perm.cons y (insert-perm x ys)) (Perm.swap x y ys))
    | inr h ↦ rw (insert-stop x y ys h) (Perm.refl (x ∷ y ∷ ys))
  ]

  sort-perm : (xs : List Entry) → Perm (sort order xs) xs
  unfolding sort
  sort-perm [] = Perm.refl []
  sort-perm (x ∷ xs) = Perm.trans (insert-perm x (sort order xs)) (Perm.cons x (sort-perm xs))

  insert-All :
      (P : Entry → Type 0) (x : Entry) (xs : List Entry)
      → P x
      → All P xs
      → All P (insert order x xs)
  unfolding insert
  insert-All P x [] p h = (p, tt)
  insert-All P x (y ∷ ys) p (q, h) = elim (Ordering-cases (order x y)) [
    | inl e ↦ rw (insert-gt x y ys e) (q, insert-All P x ys p h)
    | inr k ↦ rw (insert-stop x y ys k) (p, (q, h))
  ]

  sort-All : (P : Entry → Type 0) (xs : List Entry) → All P xs → All P (sort order xs)
  unfolding sort
  sort-All P [] h = tt
  sort-All P (x ∷ xs) (p, h) = insert-All P x (sort order xs) p (sort-All P xs h)

  -- No element is greater than the one behind it.
  abbrev pub Before : Entry → List Entry → Type 0
  Before x [] = Unit
  Before x (y ∷ ys) = order x y ≢ Ordering.gt

  abbrev pub InOrder : List Entry → Type 0
  InOrder [] = Unit
  InOrder (x ∷ xs) = Before x xs × InOrder xs

  module _ (turn : (x y : Entry) → order x y ≡ Ordering.gt → order y x ≢ Ordering.gt) where
    Before-insert :
        (y x : Entry) (ys : List Entry)
        → order x y ≡ Ordering.gt
        → Before y ys
        → Before y (insert order x ys)
    unfolding insert
    Before-insert y x [] e h = turn x y e
    Before-insert y x (z ∷ ys) e h = elim (Ordering-cases (order x z)) [
      | inl g ↦ rw (insert-gt x z ys g) h
      | inr k ↦ rw (insert-stop x z ys k) (turn x y e)
    ]

    insert-InOrder : (x : Entry) (xs : List Entry) → InOrder xs → InOrder (insert order x xs)
    unfolding insert
    insert-InOrder x [] h = (tt, tt)
    insert-InOrder x (y ∷ ys) (b, h) = elim (Ordering-cases (order x y)) [
      | inl e ↦ rw (insert-gt x y ys e) (Before-insert y x ys e b, insert-InOrder x ys h)
      | inr k ↦ rw (insert-stop x y ys k) (k, (b, h))
    ]

    sort-InOrder : (xs : List Entry) → InOrder (sort order xs)
    unfolding sort
    sort-InOrder [] = tt
    sort-InOrder (x ∷ xs) = insert-InOrder x (sort order xs) (sort-InOrder xs)

abbrev pub IsFile : Entry → Type 0
IsFile entry = entry.directory ≡ false

-- Behind a file stand files only.
abbrev pub DirectoriesFirst : List Entry → Type 0
DirectoriesFirst [] = Unit
DirectoriesFirst (x ∷ xs) = (IsFile x → All IsFile xs) × DirectoriesFirst xs

module _ (platform : Platform) (sorting : Sorting) where
  abbrev order : Entry → Entry → Ordering
  order = compare_entries platform sorting

  IsFile-gt : (x y : Entry) → order x y ≡ Ordering.gt → IsFile y → IsFile x
  unfolding compare_entries
  IsFile-gt x y e f = ground arith

  IsFile-stop : (x y : Entry) → order x y ≢ Ordering.gt → IsFile x → IsFile y
  unfolding compare_entries
  IsFile-stop x y h f = ground arith

  insert-DirectoriesFirst :
      (x : Entry) (xs : List Entry) → DirectoriesFirst xs → DirectoriesFirst (insert order x xs)
  unfolding insert
  insert-DirectoriesFirst x [] h = (λ _. tt, tt)
  insert-DirectoriesFirst x (y ∷ ys) (b, h) = elim (Ordering-cases (order x y)) [
    | inl e ↦ rw (insert-gt order x y ys e) (
      λ f. insert-All order IsFile x ys (IsFile-gt x y e f) (b f),
      insert-DirectoriesFirst x ys h,
    )
    | inr k ↦
        rw (insert-stop order x y ys k)
          (λ f. (IsFile-stop x y k f, b (IsFile-stop x y k f)), (b, h))
  ]

  sort-DirectoriesFirst : (xs : List Entry) → DirectoriesFirst (sort order xs)
  unfolding sort
  sort-DirectoriesFirst [] = tt
  sort-DirectoriesFirst (x ∷ xs) =
      insert-DirectoriesFirst x (sort order xs) (sort-DirectoriesFirst xs)

keep-All :
    (P : Entry → Type 0) (test : Entry → Bool) (xs : List Entry) → All P xs → All P (keep test xs)
keep-All P test [] h = tt
keep-All P test (x ∷ xs) (p, h) = elim (Bool-cases (test x)) [
  | inl e ↦ rw e (p, keep-All P test xs h)
  | inr e ↦ rw e (keep-All P test xs h)
]

-- What holds of the entries holds of the rows.
pub rows-All :
    (P : Entry → Type 0) (platform : Platform) (hidden : Bool) (query : Text) (sorting : Sorting)
    (entries : List Entry)
    → All P entries
    → All P (rows platform hidden query sorting entries)
unfolding rows
rows-All P platform hidden query sorting entries h =
    sort-All (compare_entries platform sorting) P _
      (keep-All P (is_shown platform hidden query) entries h)

-- What `localeCompare` is documented to do: the result for two names turned round has the other sign.
abbrev pub IsTurning : Platform → Type 0
IsTurning platform = (a b : Text) → platform.collate b a ≡ flip (platform.collate a b)

compare-turn : (a b : ℕ) → compare b a ≡ flip (compare a b)
compare-turn a b = ground arith

compare_times-turn : (a b : Option ℕ) → compare_times b a ≡ flip (compare_times a b)
compare_times-turn none none = refl
compare_times-turn none (some b) = refl
compare_times-turn (some a) none = refl
compare_times-turn (some a) (some b) = compare-turn a b

compare_by-turn :
    (platform : Platform) (key : SortKey) (x y : Entry)
    → IsTurning platform
    → compare_by platform key y x ≡ flip (compare_by platform key x y)
compare_by-turn platform by_name x y turning = turning x.name y.name
compare_by-turn platform by_size x y turning = compare-turn x.size y.size
compare_by-turn platform by_modified x y turning =
    compare_times-turn (platform.time x.modified) (platform.time y.modified)

compare_entries-turn :
    (platform : Platform) (sorting : Sorting) (x y : Entry)
    → IsTurning platform
    → compare_entries platform sorting x y ≡ Ordering.gt
    → compare_entries platform sorting y x ≢ Ordering.gt
unfolding compare_entries
compare_entries-turn platform sorting x y turning e =
    ground (arith, compare_by-turn platform sorting.key x y turning)

-- The rows are the entries that pass the two filters, each as often as it is listed; the directories
-- come first in either direction; and, where comparing two names turned round gives the other sign, no
-- row is greater than the next by the order that is chosen.
pub rows_lem :
    (platform : Platform) (hidden : Bool) (query : Text) (sorting : Sorting) (entries : List Entry)
    → IsTurning platform
    → let shown = rows platform hidden query sorting entries in
      Perm shown (keep (is_shown platform hidden query) entries)
      × DirectoriesFirst shown
      × InOrder (compare_entries platform sorting) shown
unfolding rows
rows_lem platform hidden query sorting entries turning =
    let kept = keep (is_shown platform hidden query) entries in
    (
      sort-perm (compare_entries platform sorting) kept,
      sort-DirectoriesFirst platform sorting kept,
      sort-InOrder (compare_entries platform sorting)
          (λ x y. compare_entries-turn platform sorting x y turning) kept,
    )
