-- ===== src/Connect/Base.antt =====
-- web/src/connect.ts, lines 15-20: the base path of the panel.
use easy_webdav.Prelude.{
  is_space, trim_start, trim_end, trim, ℕ, ◌≡◌, refl, ◌∙◌, Bool, true, false, ◌&&◌, [], ◌∷◌, ◌++◌,
  Text, units, or_else, ◌==◌, ==_iff, if◌then◌else◌, arith, Bool-cases, inl, inr,
}

-- `startsWith('/')` and `endsWith('/')`.
abbrev pub starts_slash : Text → Bool
starts_slash [] = false
starts_slash (c ∷ s) = c == b'/'

abbrev pub ends_slash : Text → Bool
ends_slash [] = false
ends_slash (c ∷ []) = c == b'/'
ends_slash (c ∷ d ∷ s) = ends_slash (d ∷ s)

-- `replace(/\/{2,}/g, '/')`.
unfoldable pub collapse : Text → Text
collapse [] = []
collapse (c ∷ s) = let rest = collapse s in if c == b'/' && starts_slash s then rest else c ∷ rest

unfoldable pub with_leading : Text → Text
with_leading s = if starts_slash s then s else b'/' ∷ s

unfoldable pub with_trailing : Text → Text
with_trailing s = if ends_slash s then s else s ++ b'/' ∷ []

unfoldable pub normalize_base : Text → Text
normalize_base value = with_trailing (collapse (with_leading (trim (or_else value (units "/")))))

-- No slash stands before another.
abbrev pub NoDouble : Text → Type 0
NoDouble [] = Unit
NoDouble (c ∷ s) = ((c == b'/' && starts_slash s) ≡ false) × NoDouble s

-- A base: it begins and ends with a slash, and has no two in a row.
abbrev pub IsBase : Text → Type 0
IsBase s = (starts_slash s ≡ true) × (ends_slash s ≡ true) × NoDouble s

starts_slash-collapse : (s : Text) → starts_slash (collapse s) ≡ starts_slash s
unfolding collapse
starts_slash-collapse [] = refl
starts_slash-collapse (c ∷ s) = ground (arith, starts_slash-collapse s)

collapse-NoDouble : (s : Text) → NoDouble (collapse s)
unfolding collapse
collapse-NoDouble [] = tt
collapse-NoDouble (c ∷ s) = ground (arith, starts_slash-collapse s, collapse-NoDouble s)

starts_slash-append : (s t : Text) → starts_slash s ≡ true → starts_slash (s ++ t) ≡ true
starts_slash-append [] t h = cc
starts_slash-append (c ∷ s) t h = h

append-NoDouble : (s : Text) → ends_slash s ≡ false → NoDouble s → NoDouble (s ++ b'/' ∷ [])
append-NoDouble [] h k = ground arith
append-NoDouble (c ∷ []) h k = ground arith
append-NoDouble (c ∷ d ∷ s) h (p, k) = (p, append-NoDouble (d ∷ s) h k)

ends_slash-append : (s : Text) → ends_slash (s ++ b'/' ∷ []) ≡ true
ends_slash-append [] = refl
ends_slash-append (c ∷ []) = refl
ends_slash-append (c ∷ d ∷ s) = ends_slash-append (d ∷ s)

with_trailing-IsBase : (s : Text) → starts_slash s ≡ true → NoDouble s → IsBase (with_trailing s)
unfolding with_trailing
with_trailing-IsBase s h k = elim (Bool-cases (ends_slash s)) [
  | inl e ↦ rw (e, with_trailing) (h, e, k)
  | inr e ↦
      rw (e, with_trailing)
        (starts_slash-append s (b'/' ∷ []) h, ends_slash-append s, append-NoDouble s e k)
]

starts_slash-with_leading : (s : Text) → starts_slash (with_leading s) ≡ true
unfolding with_leading
starts_slash-with_leading s = ground arith

normalize_base-IsBase : (value : Text) → IsBase (normalize_base value)
unfolding normalize_base
normalize_base-IsBase value =
    let led = with_leading (trim (or_else value (units "/"))) in
    with_trailing-IsBase (collapse led)
      (starts_slash-collapse led ∙ starts_slash-with_leading (trim (or_else value (units "/"))))
      (collapse-NoDouble led)

collapse-base : (s : Text) → NoDouble s → collapse s ≡ s
unfolding collapse
collapse-base [] h = refl
collapse-base (c ∷ s) (p, h) = ground (arith, collapse-base s h)

is_space-slash : (c : ℕ) → (c == b'/') ≡ true → is_space c ≡ false
unfolding is_space
is_space-slash c h = ground (arith, ==_iff c b'/')

trim_end-base : (s : Text) → ends_slash s ≡ true → trim_end s ≡ s
unfolding trim_end
trim_end-base [] h = refl
trim_end-base (c ∷ []) h = ground (arith, is_space-slash c h)
trim_end-base (c ∷ d ∷ s) h = ground (arith, trim_end-base (d ∷ s) h)

trim_start-base : (s : Text) → starts_slash s ≡ true → trim_start s ≡ s
unfolding trim_start
trim_start-base [] h = refl
trim_start-base (c ∷ s) h = ground (arith, is_space-slash c h)

or_else-base : (s d : Text) → starts_slash s ≡ true → or_else s d ≡ s
or_else-base [] d h = cc
or_else-base (c ∷ s) d h = refl

normalize_base-base : (s : Text) → IsBase s → normalize_base s ≡ s
unfolding normalize_base trim with_leading with_trailing
normalize_base-base s (h, k, n) =
    ground (
      arith,
      or_else-base s (units "/") h,
      trim_start-base s h,
      trim_end-base s k,
      collapse-base s n,
    )

-- Whatever the document's base is, the normalised one begins and ends with a slash and has no two
-- slashes in a row; and normalising it again changes nothing.
pub normalize_base_lem :
    (value : Text)
    → IsBase (normalize_base value) × (normalize_base (normalize_base value) ≡ normalize_base value)
normalize_base_lem value =
    let base = normalize_base-IsBase value in
    (base, normalize_base-base (normalize_base value) base)
