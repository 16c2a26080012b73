-- ===== src/Preview/Overlay/Stepping.antt =====
-- Stepping through the images (web/src/components/PreviewOverlay.vue).
use native.Mathlib.Decide.{ℕ_discrete}
use mathlib.Core.Option.{some-injective}
use native.Mathlib.Nat.{add-mod_right, mod-eq_of_lt, mod_self}
use easy_webdav.Prelude.{
  ℕ, zero, suc, ◌+◌, ◌-◌, ◌%◌, ◌<◌, ◌≡◌, refl, ap, ◌∙◌, subst, true, false, List, [], ◌∷◌, some,
  Text, text_eq, text_eq_iff, length, get_elem?, All, arith, inl, inr, Option-cases, if◌then◌else◌,
  ◌==◌,
}
use easy_webdav.Api.Types.{Entry}
use easy_webdav.Preview.Overlay.{Direction, previous, following, index_of, step_index, step_images}

-- No two entries have one name.
abbrev pub AreDistinct : List Entry → Type 0
AreDistinct [] = Unit
AreDistinct (item ∷ items) =
    All (λ other. text_eq item.name other.name ≡ false) items × AreDistinct items

abbrev pub opposite : Direction → Direction
opposite previous = following
opposite following = previous

get-index_of :
    (name : Text) (items : List Entry) (i : ℕ)
    → index_of name items ≡ some i
    → (item : Entry) × (get_elem? items i ≡ some item) × (item.name ≡ name) × (i < length items)
unfolding index_of
get-index_of name [] i h = cc
get-index_of name (x ∷ items) zero h =
    (x, refl, ground (arith, text_eq_iff x.name name), omega arith)
get-index_of name (x ∷ items) (suc i) h =
    let later : index_of name items ≡ some i = ground arith in
    let (item, found, same, below) = get-index_of name items i later in
    (item, found, same, omega arith)

All-get :
    (P : Entry → Type 0) (items : List Entry) (i : ℕ) (item : Entry)
    → All P items
    → get_elem? items i ≡ some item
    → P item
All-get P [] i item h e = cc
All-get P (x ∷ items) zero item (p, h) e = subst P (some-injective _ _ e) p
All-get P (x ∷ items) (suc i) item (p, h) e = All-get P items i item h e

index_of-get :
    (items : List Entry) (i : ℕ) (item : Entry)
    → AreDistinct items
    → get_elem? items i ≡ some item
    → index_of item.name items ≡ some i
unfolding index_of
index_of-get [] i item d h = cc
index_of-get (x ∷ items) zero item d h =
    let same : text_eq x.name item.name ≡ true = ground (arith, text_eq_iff x.name item.name) in
    rw (same, index_of)
index_of-get (x ∷ items) (suc i) item (apart, d) h =
    let other : text_eq x.name item.name ≡ false = All-get _ items i item apart h in
    rw (other, index_of) (ap (mathlib.Core.Option.map suc) (index_of-get items i item d h))

get-lt :
    (items : List Entry) (i : ℕ)
    → i < length items
    → (item : Entry) × (get_elem? items i ≡ some item)
get-lt [] i h = absurd (omega arith)
get-lt (x ∷ items) zero h = (x, refl)
get-lt (x ∷ items) (suc i) h = get-lt items i (omega arith)

step_index-lt : (direction : Direction) (i size : ℕ) → 0 < size → step_index direction i size < size
unfolding step_index
step_index-lt previous i size h = grind arith
step_index-lt following i size h = grind arith

wrap_below : (a size : ℕ) → a < size → (a + size) % size ≡ a
wrap_below a size h = add-mod_right a size ∙ mod-eq_of_lt h

previous_value :
    (i size : ℕ) → i < size → step_index previous i size ≡ (if i == 0 then size - 1 else i - 1)
unfolding step_index
previous_value zero size h =
    let e : zero + size - 1 ≡ size - 1 = omega arith in rw (e) (mod-eq_of_lt (omega arith))
previous_value (suc i) size h =
    let e : suc i + size - 1 ≡ i + size = omega arith in
    rw (e, wrap_below i size (omega arith)) (ground arith)

following_value :
    (i size : ℕ) → i < size → step_index following i size ≡ (if i + 1 == size then 0 else i + 1)
unfolding step_index
following_value i size h = elim (ℕ_discrete (i + 1) size) [
  | yes last ↦ rw (last) (ground (arith, add-mod_right size size, mod_self size))
  | no more ↦ ground (arith, wrap_below (i + 1) size)
]

step_index-opposite :
    (direction : Direction) (i size : ℕ)
    → i < size
    → step_index (opposite direction) (step_index direction i size) size ≡ i
step_index-opposite previous i size h = ground (
  arith,
  previous_value i size h,
  following_value (step_index previous i size) size,
  step_index-lt previous i size,
)
step_index-opposite following i size h = ground (
  arith,
  following_value i size h,
  previous_value (step_index following i size) size,
  step_index-lt following i size,
)

-- A step that shows an image starts from a listed one.
step_images-inv :
    (direction : Direction) (name : Text) (items : List Entry) (shown : Entry)
    → step_images direction name items ≡ some shown
    → (i : ℕ) × (index_of name items ≡ some i)
      × (1 < length items)
      × (get_elem? items (step_index direction i (length items)) ≡ some shown)
unfolding step_images
step_images-inv direction name items shown h = elim (Option-cases (index_of name items)) [
  | inl missing ↦ cc (rw (missing, step_images) at h)
  | inr (i, found) ↦
      let at_step = rw (found, step_images) at h in
      (i, found, ground (arith, at_step), ground (arith, at_step))
]

step_images-at :
    (direction : Direction) (name : Text) (items : List Entry) (i : ℕ)
    → index_of name items ≡ some i
    → 1 < length items
    → step_images direction name items ≡ get_elem? items (step_index direction i (length items))
unfolding step_images
step_images-at direction name items i found many = rw (found, step_images) (ground arith)

-- Among images of different names, a step that shows another image can be taken back: the step the
-- other way from it shows the image that was shown before.
pub step_images-opposite :
    (direction : Direction) (name : Text) (items : List Entry) (shown : Entry)
    → AreDistinct items
    → step_images direction name items ≡ some shown
    → (item : Entry) × (item.name ≡ name)
      × (step_images (opposite direction) shown.name items ≡ some item)
step_images-opposite direction name items shown d h =
    let (i, found, many, at_step) = step_images-inv direction name items shown h in
    let (item, listed, same, below) = get-index_of name items i found in
    let back =
      step_images-at (opposite direction) shown.name items _ (index_of-get items _ shown d at_step)
        many in
    (
      item,
      same,
      back ∙ ap (get_elem? items) (step_index-opposite direction i (length items) below) ∙ listed,
    )

-- From a listed image, with two images or more, a step always shows one of them.
pub step_images_total :
    (direction : Direction) (name : Text) (items : List Entry) (i : ℕ)
    → index_of name items ≡ some i
    → 1 < length items
    → (shown : Entry) × (step_images direction name items ≡ some shown)
step_images_total direction name items i found many =
    let (shown, listed) =
      get-lt items (step_index direction i (length items))
        (step_index-lt direction i (length items) (omega arith)) in
    (shown, step_images-at direction name items i found many ∙ listed)
