-- ===== src/Upload/Chunks.antt =====
-- web/src/uploader.ts, lines 50-56: how a file is cut into the parts that the workers send.
use easy_webdav.Prelude.{
  ℕ, zero, suc, ◌+◌, ◌-◌, ◌*◌, ◌≤◌, ◌<◌, ◌≡◌, refl, sym, ap, ◌∙◌, List, [], ◌∷◌, ◌++◌, map, min,
  arith, length, take, drop, range_from,
}
use mathlib.Core.List.{flatten}
use native.Mathlib.Decide.{dec_le}
use easy_webdav.Upload.State.{chunk_size, chunk_count}

-- `file.slice(start, end)` for `start <= end`.
unfoldable pub slice : ℕ → ℕ → List ℕ → List ℕ
slice start end file = take (end - start) (drop start file)

-- `file.slice(index * size, Math.min(file.size, (index + 1) * size))`, at any chunk size.
unfoldable pub part : ℕ → List ℕ → ℕ → List ℕ
unfolding slice
part size file index = slice (index * size) (min (length file) ((index + 1) * size)) file

unfoldable pub chunk_part : List ℕ → ℕ → List ℕ
chunk_part file index = part chunk_size file index

-- The indices that the queue starts with.
unfoldable pub chunk_indices : ℕ → List ℕ
chunk_indices size = range_from 0 (chunk_count size)

module _ {ℓ} {A : Type ℓ} where
  take-nil : (n : ℕ) → take {A = A} n [] ≡ []
  take-nil zero = refl
  take-nil (suc n) = refl

  drop-nil : (n : ℕ) → drop {A = A} n [] ≡ []
  drop-nil zero = refl
  drop-nil (suc n) = refl

  take-add : (a b : ℕ) (xs : List A) → take (a + b) xs ≡ take a xs ++ take b (drop a xs)
  take-add zero b xs = let e : 0 + b ≡ b = omega arith in rw e
  take-add (suc a) b [] = rw (take-nil (suc a + b), take-nil b)
  take-add (suc a) b (x ∷ xs) =
      let e : suc a + b ≡ suc (a + b) = omega arith in rw e (ap (◌∷◌ x) (take-add a b xs))

  drop-drop : (a b : ℕ) (xs : List A) → drop b (drop a xs) ≡ drop (a + b) xs
  drop-drop zero b xs = let e : 0 + b ≡ b = omega arith in rw e
  drop-drop (suc a) b [] = rw (drop-nil (suc a + b), drop-nil b)
  drop-drop (suc a) b (x ∷ xs) =
      let e : suc a + b ≡ suc (a + b) = omega arith in rw e (drop-drop a b xs)

  length-drop : (n : ℕ) (xs : List A) → length (drop n xs) ≡ length xs - n
  length-drop zero xs = omega arith
  length-drop (suc n) [] = omega arith
  length-drop (suc n) (x ∷ xs) = omega (arith, length-drop n xs)

  length-take : (n : ℕ) (xs : List A) → length (take n xs) ≡ min n (length xs)
  length-take zero xs = omega arith
  length-take (suc n) [] = omega arith
  length-take (suc n) (x ∷ xs) = omega (arith, length-take n xs)

  take-all : (n : ℕ) (xs : List A) → length xs ≤ n → take n xs ≡ xs
  take-all zero [] h = refl
  take-all zero (x ∷ xs) h = elim h [ ]
  take-all (suc n) [] h = refl
  take-all (suc n) (x ∷ xs) h = ap (◌∷◌ x) (take-all n xs (omega arith))

-- Cutting at the end of the file gives what cutting at the full size would give.
part-eq-take : (c : ℕ) (file : List ℕ) (i : ℕ) → part c file i ≡ take c (drop (i * c) file)
unfolding part slice
part-eq-take c file i = elim (dec_le ((i + 1) * c) (length file)) [
  | yes inside ↦ let e : min (length file) ((i + 1) * c) - i * c ≡ c = omega arith in rw e
  | no beyond ↦
      let left : length (drop (i * c) file) ≡ length file - i * c = length-drop (i * c) file in
      let e : min (length file) ((i + 1) * c) - i * c ≡ length file - i * c = omega arith in
      rw e (
        take-all (length file - i * c) (drop (i * c) file) (omega arith)
        ∙ sym (take-all c (drop (i * c) file) (omega arith)))
]

flatten-parts :
    (c : ℕ) (file : List ℕ) (n i : ℕ)
    → flatten (map (part c file) (range_from i n)) ≡ take (n * c) (drop (i * c) file)
unfolding flatten
flatten-parts c file zero i = let e : zero * c ≡ 0 = omega arith in rw e
flatten-parts c file (suc n) i =
    let e : suc n * c ≡ c + n * c = grind arith in
    let d : suc i * c ≡ i * c + c = grind arith in
    rw (
      e,
      part-eq-take c file i,
      flatten-parts c file n (suc i),
      d,
      take-add c (n * c) (drop (i * c) file),
      drop-drop (i * c) c file,
    )

chunk_count-covers : (size : ℕ) → size ≤ chunk_count size * chunk_size
unfolding chunk_count
chunk_count-covers size = omega arith

-- The parts that the queue names, in the order of their indices, make up the file: nothing is lost,
-- repeated or shifted between neighbouring chunks, and the last one ends where the file ends.
pub flatten-chunk_part :
    (file : List ℕ) → flatten (map (chunk_part file) (chunk_indices (length file))) ≡ file
unfolding chunk_part chunk_indices
flatten-chunk_part file =
    flatten-parts chunk_size file (chunk_count (length file)) 0
    ∙ take-all _ file (chunk_count-covers (length file))

length-part : (c : ℕ) (file : List ℕ) (i : ℕ) → length (part c file i) ≡ min c (length file - i * c)
length-part c file i =
    rw (part-eq-take c file i, length-take c (drop (i * c) file), length-drop (i * c) file)

-- No part is larger than the chunk size, and every part but the last is of the full size.
pub length-chunk_part :
    (file : List ℕ) (index : ℕ)
    → (length (chunk_part file index) ≤ chunk_size)
      × (index + 1 < chunk_count (length file) → length (chunk_part file index) ≡ chunk_size)
unfolding chunk_part chunk_count
length-chunk_part file index = (
  omega (arith, length-part chunk_size file index),
  λ h. omega (arith, length-part chunk_size file index),
)
