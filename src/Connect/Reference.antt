-- ===== src/Connect/Reference.antt =====
-- The base path of web/src/connect.ts against a description of it by its segments.
use easy_webdav.Prelude.{
  ℕ, ◌≡◌, refl, ap, sym, ◌∙◌, true, false, List, [], ◌∷◌, ◌++◌, Text, units, or_else, trim, keep,
  is_truthy, split_slash, split_from, ◌==◌, ==_iff, if◌then◌else◌, arith, Bool-cases, inl, inr,
}
use mathlib.Core.List.{append-nil, append_assoc}
use easy_webdav.Connect.Base.{
  starts_slash, ends_slash, collapse, with_leading, with_trailing, normalize_base,
}

-- The segments, each with a slash behind it.
unfoldable pub closed : List Text → Text
closed [] = []
closed (part ∷ parts) = part ++ b'/' ∷ closed parts

-- A slash, and then the segments of the trimmed base that are not empty, each with a slash behind it.
unfoldable pub base_of_segments : Text → Text
base_of_segments value =
    b'/' ∷ closed (keep is_truthy (split_slash (trim (or_else value (units "/")))))

ends_slash-append_cons :
    (xs : Text) (y : ℕ) (ys : Text) → ends_slash (xs ++ y ∷ ys) ≡ ends_slash (y ∷ ys)
ends_slash-append_cons [] y ys = refl
ends_slash-append_cons (x ∷ []) y ys = refl
ends_slash-append_cons (x ∷ z ∷ xs) y ys = ends_slash-append_cons (z ∷ xs) y ys

with_trailing-append :
    (xs : Text) (y : ℕ) (ys : Text) → with_trailing (xs ++ y ∷ ys) ≡ xs ++ with_trailing (y ∷ ys)
unfolding with_trailing
with_trailing-append xs y ys =
    ap (λ b. if b then xs ++ y ∷ ys else (xs ++ y ∷ ys) ++ b'/' ∷ [])
      (ends_slash-append_cons xs y ys)
    ∙ (elim (Bool-cases (ends_slash (y ∷ ys))) [
      | inl e ↦ rw e refl
      | inr e ↦ rw e (append_assoc xs (y ∷ ys) (b'/' ∷ []))
    ])

with_trailing-plain : (s : Text) → ends_slash s ≡ false → with_trailing s ≡ s ++ b'/' ∷ []
unfolding with_trailing
with_trailing-plain s h = rw h refl

collapse-plain : (c : ℕ) (s : Text) → (c == b'/') ≡ false → collapse (c ∷ s) ≡ c ∷ collapse s
unfolding collapse
collapse-plain c s h = ground arith

collapse-double : (s : Text) → starts_slash s ≡ true → collapse (b'/' ∷ s) ≡ collapse s
unfolding collapse
collapse-double s h = ground arith

collapse-single : (s : Text) → starts_slash s ≡ false → collapse (b'/' ∷ s) ≡ b'/' ∷ collapse s
unfolding collapse
collapse-single s h = ground arith

split_from-slash :
    (cur : Text) (c : ℕ) (s : Text)
    → (c == b'/') ≡ true
    → split_from cur (c ∷ s) ≡ cur ∷ split_from [] s
split_from-slash cur c s h = ground arith

split_from-plain :
    (cur : Text) (c : ℕ) (s : Text)
    → (c == b'/') ≡ false
    → split_from cur (c ∷ s) ≡ split_from (cur ++ c ∷ []) s
split_from-plain cur c s h = ground arith

-- What is left of a text behind a slash, and behind a part that has been begun.
abbrev parts_of : Text → Text → Text
parts_of cur s = closed (keep is_truthy (split_from cur s))

abbrev NoSlashEnd : Text → Type 0
NoSlashEnd cur = (is_truthy cur ≡ true) × (ends_slash cur ≡ false)

keep-first :
    (cur : Text) (rest : List Text)
    → is_truthy cur ≡ true
    → closed (keep is_truthy (cur ∷ rest)) ≡ cur ++ b'/' ∷ closed (keep is_truthy rest)
unfolding closed
keep-first [] rest h = cc
keep-first (c ∷ cur) rest h = refl

NoSlashEnd-snoc : (cur : Text) (c : ℕ) → (c == b'/') ≡ false → NoSlashEnd (cur ++ c ∷ [])
NoSlashEnd-snoc [] c h = (refl, h)
NoSlashEnd-snoc (x ∷ cur) c h = (refl, ends_slash-append_cons (x ∷ cur) c [] ∙ h)

slash-eq : (c : ℕ) → (c == b'/') ≡ true → c ≡ b'/'
slash-eq c h = (==_iff c b'/').0 h

collapse-head : (s : Text) → (rest : Text) × (collapse (b'/' ∷ s) ≡ b'/' ∷ rest)
unfolding collapse
collapse-head [] = ([], collapse-single [] refl)
collapse-head (c ∷ s) = elim (Bool-cases (c == b'/')) [
  | inl e ↦
      let inner = collapse-head s in
      (inner.0, collapse-double (c ∷ s) e ∙ ap (λ d. collapse (d ∷ s)) (slash-eq c e) ∙ inner.1)
  | inr e ↦ (collapse (c ∷ s), collapse-single (c ∷ s) e)
]

with_trailing-collapse :
    (cur s : Text)
    → with_trailing (cur ++ collapse (b'/' ∷ s)) ≡ cur ++ with_trailing (collapse (b'/' ∷ s))
with_trailing-collapse cur s =
    let head = collapse-head s in
    ap (λ rest. with_trailing (cur ++ rest)) (head.1)
    ∙ with_trailing-append cur b'/' head.0
    ∙ ap (λ rest. cur ++ with_trailing rest) (sym (head.1))

-- Behind a slash, and behind a part that has been begun.
abbrev IsRead : Text → Type 0
IsRead s =
    (with_trailing (collapse (b'/' ∷ s)) ≡ b'/' ∷ parts_of [] s)
    × ((cur : Text) → NoSlashEnd cur → with_trailing (cur ++ collapse s) ≡ parts_of cur s)

slash-IsRead : (c : ℕ) (s : Text) → (c == b'/') ≡ true → IsRead s → IsRead (c ∷ s)
slash-IsRead c s e (slash, part) =
    let second = ap (λ d. collapse (d ∷ s)) (slash-eq c e) in
    (
      ap with_trailing (collapse-double (c ∷ s) e ∙ second)
          ∙ slash
          ∙ ap (λ parts. b'/' ∷ closed (keep is_truthy parts)) (sym (split_from-slash [] c s e)),
      λ cur h.
          ap (λ rest. with_trailing (cur ++ rest)) second
          ∙ with_trailing-collapse cur s
          ∙ ap (λ rest. cur ++ rest) slash
          ∙ sym (keep-first cur (split_from [] s) h.0)
          ∙ ap (λ parts. closed (keep is_truthy parts)) (sym (split_from-slash cur c s e)),
    )

plain-IsRead : (c : ℕ) (s : Text) → (c == b'/') ≡ false → IsRead s → IsRead (c ∷ s)
plain-IsRead c s e (slash, part) = (
  ap with_trailing (collapse-single (c ∷ s) e ∙ ap (λ rest. b'/' ∷ rest) (collapse-plain c s e))
      ∙ with_trailing-append (b'/' ∷ []) c (collapse s)
      ∙ ap (λ rest. b'/' ∷ rest) (part (c ∷ []) (refl, e))
      ∙ ap (λ parts. b'/' ∷ closed (keep is_truthy parts)) (sym (split_from-plain [] c s e)),
  λ cur h.
      ap (λ rest. with_trailing (cur ++ rest)) (collapse-plain c s e)
      ∙ ap with_trailing (sym (append_assoc cur (c ∷ []) (collapse s)))
      ∙ part (cur ++ c ∷ []) (NoSlashEnd-snoc cur c e)
      ∙ ap (λ parts. closed (keep is_truthy parts)) (sym (split_from-plain cur c s e)),
)

every-IsRead : (s : Text) → IsRead s
unfolding collapse with_trailing closed
every-IsRead [] = (
  refl,
  λ cur h.
      ap with_trailing (append-nil cur) ∙ with_trailing-plain cur h.1 ∙ sym (keep-first cur [] h.0),
)
every-IsRead (c ∷ s) = elim (Bool-cases (c == b'/')) [
  | inl e ↦ slash-IsRead c s e (every-IsRead s)
  | inr e ↦ plain-IsRead c s e (every-IsRead s)
]

with_leading-IsRead :
    (s : Text)
    → with_trailing (collapse (with_leading s)) ≡ b'/' ∷ closed (keep is_truthy (split_slash s))
unfolding with_leading
with_leading-IsRead s = elim (Bool-cases (starts_slash s)) [
  | inl e ↦ rw e (ap with_trailing (sym (collapse-double s e)) ∙ (every-IsRead s).0)
  | inr e ↦ rw e ((every-IsRead s).0)
]

-- Whatever the document's base is, the normalised one is a slash, followed by the segments of the trimmed
-- base that are not empty, each with one slash behind it.
pub normalize_base-segments : (value : Text) → normalize_base value ≡ base_of_segments value
unfolding normalize_base base_of_segments
normalize_base-segments value = with_leading-IsRead (trim (or_else value (units "/")))
