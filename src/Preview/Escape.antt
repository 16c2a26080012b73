-- ===== src/Preview/Escape.antt =====
-- web/src/highlight.ts, lines 13-15: the escaping of a text for HTML.
use easy_webdav.Prelude.{
  ℕ, zero, suc, ◌≤◌, ◌≡◌, refl, ap, ◌≢◌, [], ◌∷◌, ◌++◌, Option, none, some, Text, units, ◌==◌,
  if◌then◌else◌, length, All, All-append, arith, ◌∙◌,
}

-- What stands for a character.
unfoldable pub entity : ℕ → Text
entity c =
    if c == b'&'
    then units "&amp;"
    else if c == b'<'
    then units "&lt;"
    else if c == b'>'
    then units "&gt;"
    else if c == b'"'
    then units "&quot;"
    else if c == b'\''
    then units "&#39;"
    else c ∷ []

unfoldable pub escape_html : Text → Text
escape_html [] = []
escape_html (c ∷ value) = entity c ++ escape_html value

-- A unit that cannot open or close a tag or an attribute's value.
abbrev pub IsInert : ℕ → Type 0
IsInert c = (c ≢ b'<') × (c ≢ b'>') × (c ≢ b'"') × (c ≢ b'\'')

entity-IsInert : (c : ℕ) → All IsInert (entity c)
unfolding entity
entity-IsInert c = ground arith

pub escape_html-IsInert : (value : Text) → All IsInert (escape_html value)
unfolding escape_html
escape_html-IsInert [] = tt
escape_html-IsInert (c ∷ value) =
    All-append IsInert (entity c) (escape_html value) (entity-IsInert c) (escape_html-IsInert value)

-- The rest of a text behind a prefix.
abbrev strip_prefix : Text → Text → Option Text
strip_prefix [] s = some s
strip_prefix (_ ∷ _) [] = none
strip_prefix (p ∷ ps) (c ∷ s) = if p == c then strip_prefix ps s else none

-- How HTML reads one character of a text that holds these five entities only.
abbrev pub read_one : ℕ → Text → ℕ × Text
read_one c s = elim (strip_prefix (units "&amp;") (c ∷ s)) [
  | some rest ↦ (b'&', rest)
  | none ↦ elim (strip_prefix (units "&lt;") (c ∷ s)) [
    | some rest ↦ (b'<', rest)
    | none ↦ elim (strip_prefix (units "&gt;") (c ∷ s)) [
      | some rest ↦ (b'>', rest)
      | none ↦ elim (strip_prefix (units "&quot;") (c ∷ s)) [
        | some rest ↦ (b'"', rest)
        | none ↦ elim (strip_prefix (units "&#39;") (c ∷ s)) [
          | some rest ↦ (b'\'', rest)
          | none ↦ (c, s)
        ]
      ]
    ]
  ]
]

-- The characters that HTML shows, a round for each.
pub read_html : ℕ → Text → Text
read_html zero s = []
read_html (suc rounds) [] = []
read_html (suc rounds) (c ∷ s) = (read_one c s).0 ∷ read_html rounds (read_one c s).1

read_html-entity :
    (c : ℕ) (rounds : ℕ) (rest : Text)
    → read_html (suc rounds) (entity c ++ rest) ≡ c ∷ read_html rounds rest
unfolding entity read_html
read_html-entity c rounds rest = ground arith

pub read_html-escape_html :
    (value : Text) (rounds : ℕ)
    → length value ≤ rounds
    → read_html rounds (escape_html value) ≡ value
unfolding escape_html read_html
read_html-escape_html [] zero h = refl
read_html-escape_html [] (suc rounds) h = refl
read_html-escape_html (c ∷ value) zero h = absurd (omega arith)
read_html-escape_html (c ∷ value) (suc rounds) h =
    read_html-entity c rounds (escape_html value)
    ∙ ap (◌∷◌ c) (read_html-escape_html value rounds (omega arith))

-- Whatever a file holds, the escaped text has no character that opens or closes a tag or a quoted
-- attribute, and HTML shows exactly the characters of the file for it.
pub escape_html_lem :
    (value : Text)
    → All IsInert (escape_html value)
      × ((rounds : ℕ) → length value ≤ rounds → read_html rounds (escape_html value) ≡ value)
escape_html_lem value = (escape_html-IsInert value, read_html-escape_html value)
