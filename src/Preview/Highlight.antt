-- ===== src/Preview/Highlight.antt =====
-- web/src/highlight.ts, lines 19-42: the highlighter, over the matches that Pattern gives.
use mathlib.Core.List.{append_assoc}
use easy_webdav.Prelude.{
  ℕ, zero, suc, ◌-◌, ◌≡◌, refl, ap, ◌∙◌, Bool, true, false, List, [], ◌∷◌, ◌++◌, none, some, Text,
  units, ◌==◌, if◌then◌else◌, length, All, arith, take, drop, get_elem?,
}
use easy_webdav.Preview.Escape.{escape_html, IsInert}
use easy_webdav.Preview.Pattern.{
  Group, string, comment, number, keyword, unmatched, is_word, match_at,
}

pub record Piece : Type 0 where
  pub group : Group
  pub text : Text

-- The callback of `replace`, and the text between the matches as it stands.
unfoldable pub render : Group → Text → Text
render string text = units "<span class=\"tok-string\">" ++ text ++ units "</span>"
render comment text = units "<span class=\"tok-comment\">" ++ text ++ units "</span>"
render number text = units "<span class=\"tok-number\">" ++ text ++ units "</span>"
render keyword text = units "<span class=\"tok-keyword\">" ++ text ++ units "</span>"
render unmatched text = text

unfoldable pub render_all : List Piece → Text
render_all [] = []
render_all (piece ∷ pieces) = render piece.group piece.text ++ render_all pieces

abbrev pub joined : List Piece → Text
joined [] = []
joined (piece ∷ pieces) = piece.text ++ joined pieces

-- Whether the last of the first units of a text is a word character.
unfoldable pub ends_word : ℕ → Text → Bool
ends_word n s = elim (get_elem? s (n - 1)) [ none ↦ false | some c ↦ is_word c ]

-- `replace` with a global pattern: the search goes on behind each match. A match is not empty, so that
-- as many rounds as the text has units come to its end.
unfoldable pub tokenise : ℕ → Bool → Bool → Text → List Piece
tokenise zero at_start prev s = []
tokenise (suc fuel) at_start prev [] = []
tokenise (suc fuel) at_start prev (c ∷ s) = elim (match_at at_start prev (c ∷ s)) [
  | none ↦ record { group = unmatched; text = c ∷ [] } ∷ tokenise fuel false (is_word c) s
  | some (group, n) ↦
      record { group = group; text = take n (c ∷ s) }
      ∷ tokenise fuel false (ends_word n (c ∷ s)) (drop n (c ∷ s))
]

unfoldable pub highlight : Text → Text
highlight source =
    let escaped = escape_html source in render_all (tokenise (length escaped) true false escaped)

-- The text of a page without its tags; the flag tells whether a tag is open.
pub strip_tags : Bool → Text → Text
strip_tags inside [] = []
strip_tags true (c ∷ s) = strip_tags (if c == b'>' then false else true) s
strip_tags false (c ∷ s) = if c == b'<' then strip_tags true s else c ∷ strip_tags false s

strip_tags-append :
    (s rest : Text) → All IsInert s → strip_tags false (s ++ rest) ≡ s ++ strip_tags false rest
unfolding strip_tags
strip_tags-append [] rest h = refl
strip_tags-append (c ∷ s) rest (p, h) = ground (arith, strip_tags-append s rest h)

strip_tags-render :
    (group : Group) (text rest : Text)
    → All IsInert text
    → strip_tags false (render group text ++ rest) ≡ text ++ strip_tags false rest
unfolding render strip_tags
strip_tags-render string text rest h = rw (append_assoc) (strip_tags-append text _ h)
strip_tags-render comment text rest h = rw (append_assoc) (strip_tags-append text _ h)
strip_tags-render number text rest h = rw (append_assoc) (strip_tags-append text _ h)
strip_tags-render keyword text rest h = rw (append_assoc) (strip_tags-append text _ h)
strip_tags-render unmatched text rest h = strip_tags-append text rest h

All-split {ℓ κ} :
    {A : Type ℓ} (P : A → Type κ) (xs ys : List A) → All P (xs ++ ys) → All P xs × All P ys
All-split P [] ys h = (tt, h)
All-split P (x ∷ xs) ys (p, h) = let (a, b) = All-split P xs ys h in ((p, a), b)

pub strip_tags-render_all :
    (pieces : List Piece)
    → All IsInert (joined pieces)
    → strip_tags false (render_all pieces) ≡ joined pieces
unfolding render_all strip_tags
strip_tags-render_all [] h = refl
strip_tags-render_all (piece ∷ pieces) h =
    let (here, later) = All-split IsInert piece.text (joined pieces) h in
    strip_tags-render piece.group piece.text (render_all pieces) here
    ∙ ap (◌++◌ piece.text) (strip_tags-render_all pieces later)
