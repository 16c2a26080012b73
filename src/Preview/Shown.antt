-- ===== src/Preview/Shown.antt =====
-- What a highlighted page shows (web/src/highlight.ts).
use easy_webdav.Prelude.{
  ℕ, zero, suc, ◌+◌, ◌≤◌, ◌≡◌, refl, ap, ◌∙◌, Bool, true, false, List, [], ◌∷◌, ◌++◌, is_truthy,
  ◌&&◌, ◌||◌, Option, none, some, Text, units, ◌==◌, if◌then◌else◌, length, All, arith, subst, sym,
  take, drop, Option-cases, inl, inr, starts_with,
}
use easy_webdav.Preview.Escape.{escape_html, IsInert, escape_html-IsInert}
use easy_webdav.Preview.Pattern.{
  Group, string, comment, number, keyword, after, first_of, until, quoted, match_string, line_rest,
  line_mark, indented, line_comment, block_comment, match_comment, digits, fraction, match_number,
  first_keyword, keywords, match_keyword, match_at, is_word,
}
use easy_webdav.Preview.Highlight.{
  joined, tokenise, highlight, strip_tags, strip_tags-render_all, ends_word,
}

-- A match that is not empty, if there is one.
abbrev IsLong : Option ℕ → Type 0
IsLong none = Unit
IsLong (some n) = 1 ≤ n

after-IsLong : (k : ℕ) (o : Option ℕ) → 1 ≤ k → IsLong (after k o)
after-IsLong k none h = tt
after-IsLong k (some n) h = omega arith

first_of-IsLong : (a b : Option ℕ) → IsLong a → IsLong b → IsLong (first_of a b)
first_of-IsLong none b h k = k
first_of-IsLong (some n) b h k = h

if-IsLong : (b : Bool) (x y : Option ℕ) → IsLong x → IsLong y → IsLong (if b then x else y)
if-IsLong true x y h k = h
if-IsLong false x y h k = k

quoted-IsLong : (mark s : Text) → 1 ≤ length mark → IsLong (quoted mark s)
unfolding quoted
quoted-IsLong mark s h =
    if-IsLong (starts_with mark s) _ none
      (after-IsLong (length mark) (until mark (drop (length mark) s)) h) tt

match_string-IsLong : (s : Text) → IsLong (match_string s)
unfolding match_string
match_string-IsLong s =
    first_of-IsLong (quoted (units "&quot;") s) _ (quoted-IsLong (units "&quot;") s (omega arith)) (
      first_of-IsLong (quoted (units "&#39;") s) _ (quoted-IsLong (units "&#39;") s (omega arith))
        (quoted-IsLong (units "`") s (omega arith)))

line_mark-IsLong : (s : Text) → IsLong (line_mark s)
unfolding line_mark
line_mark-IsLong s =
    if-IsLong (starts_with (units "#") s) _ _ (after-IsLong 1 (line_rest (drop 1 s)) (omega arith))
      (if-IsLong _ _ none (after-IsLong 2 (line_rest (drop 2 s)) (omega arith)) tt)

indented-IsLong : (s : Text) → IsLong (indented s)
unfolding indented
indented-IsLong [] = tt
indented-IsLong (c ∷ s) =
    if-IsLong _ _ _ (after-IsLong 1 (indented s) (omega arith)) (line_mark-IsLong (c ∷ s))

line_comment-IsLong : (at_start : Bool) (s : Text) → IsLong (line_comment at_start s)
unfolding line_comment
line_comment-IsLong at_start [] = tt
line_comment-IsLong at_start (c ∷ s) =
    if-IsLong at_start _ _ (indented-IsLong (c ∷ s))
      (if-IsLong _ _ none (after-IsLong 1 (indented s) (omega arith)) tt)

match_comment-IsLong : (at_start : Bool) (s : Text) → IsLong (match_comment at_start s)
unfolding match_comment block_comment
match_comment-IsLong at_start s =
    first_of-IsLong (line_comment at_start s) _ (line_comment-IsLong at_start s)
      (if-IsLong _ _ none (after-IsLong 2 (until (units "*/") (drop 2 s)) (omega arith)) tt)

number-IsLong :
    (prev far near : Bool) (whole behind : ℕ)
    → IsLong (
        if prev || whole == 0
        then none
        else if far
        then some (whole + behind)
        else if near
        then some whole
        else none)
number-IsLong true far near whole behind = tt
number-IsLong false far near zero behind = tt
number-IsLong false far near (suc whole) behind = if-IsLong _ none _ tt (
    if-IsLong far (some (suc whole + behind)) _ (omega arith)
      (if-IsLong near (some (suc whole)) none (omega arith) tt))

match_number-IsLong : (prev : Bool) (s : Text) → IsLong (match_number prev s)
unfolding match_number
match_number-IsLong prev s = number-IsLong prev _ _ (digits s) (fraction (drop (digits s) s))

first_keyword-IsLong :
    (words : List Text) (s : Text)
    → All (λ word. 1 ≤ length word) words
    → IsLong (first_keyword words s)
unfolding first_keyword
first_keyword-IsLong [] s h = tt
first_keyword-IsLong (word ∷ words) s (p, h) =
    if-IsLong _ (some (length word)) _ p (first_keyword-IsLong words s h)

are_long : List Text → Bool
are_long [] = true
are_long (word ∷ words) = is_truthy word && are_long words

are_long-All : (words : List Text) → are_long words ≡ true → All (λ word. 1 ≤ length word) words
unfolding are_long
are_long-All [] h = tt
are_long-All ([] ∷ words) h = cc
are_long-All ((c ∷ word) ∷ words) h = (omega arith, are_long-All words h)

keywords-All : All (λ word. 1 ≤ length word) keywords
unfolding are_long
keywords-All = are_long-All keywords refl

match_keyword-IsLong : (prev : Bool) (s : Text) → IsLong (match_keyword prev s)
unfolding match_keyword
match_keyword-IsLong prev s =
    if-IsLong prev none _ tt (first_keyword-IsLong keywords s keywords-All)

-- The length of a match with its group.
abbrev IsLongMatch : Option (Group × ℕ) → Type 0
IsLongMatch none = Unit
IsLongMatch (some (group, n)) = 1 ≤ n

IsLongMatch-elim :
    (group : Group) (o : Option ℕ) (rest : Option (Group × ℕ))
    → IsLong o
    → IsLongMatch rest
    → IsLongMatch (elim o [ some n ↦ some (group, n) | none ↦ rest ])
IsLongMatch-elim group none rest h k = k
IsLongMatch-elim group (some n) rest h k = h

match_at-IsLong : (at_start prev : Bool) (s : Text) → IsLongMatch (match_at at_start prev s)
unfolding match_at
match_at-IsLong at_start prev s =
    IsLongMatch-elim string (match_string s) _ (match_string-IsLong s) (
      IsLongMatch-elim comment (match_comment at_start s) _ (match_comment-IsLong at_start s) (
        IsLongMatch-elim number (match_number prev s) _ (match_number-IsLong prev s)
          (IsLongMatch-elim keyword (match_keyword prev s) none (match_keyword-IsLong prev s) tt)))

take-drop : (n : ℕ) (s : Text) → take n s ++ drop n s ≡ s
take-drop zero s = refl
take-drop (suc n) [] = refl
take-drop (suc n) (c ∷ s) = ap (◌∷◌ c) (take-drop n s)

length-drop : (n : ℕ) (s : Text) → length (drop n s) ≤ length s
length-drop zero s = omega arith
length-drop (suc n) [] = omega arith
length-drop (suc n) (c ∷ s) = omega (arith, length-drop n s)

length-drop-lt : (n : ℕ) (c : ℕ) (s : Text) → 1 ≤ n → length (drop n (c ∷ s)) ≤ length s
length-drop-lt zero c s h = omega arith
length-drop-lt (suc n) c s h = length-drop n s

joined-tokenise :
    (fuel : ℕ) (at_start prev : Bool) (s : Text)
    → length s ≤ fuel
    → joined (tokenise fuel at_start prev s) ≡ s
unfolding tokenise
joined-tokenise zero at_start prev [] h = refl
joined-tokenise zero at_start prev (c ∷ s) h = absurd (omega arith)
joined-tokenise (suc fuel) at_start prev [] h = refl
joined-tokenise (suc fuel) at_start prev (c ∷ s) h =
    elim (Option-cases (match_at at_start prev (c ∷ s))) [
      | inl e ↦
          rw (e, tokenise) (ap (◌∷◌ c) (joined-tokenise fuel false (is_word c) s (omega arith)))
      | inr ((group, n), e) ↦
          let long = subst IsLongMatch e (match_at-IsLong at_start prev (c ∷ s)) in
          rw (e, tokenise)
            (ap (◌++◌ (take n (c ∷ s))) (
                joined-tokenise fuel false (ends_word n (c ∷ s)) (drop n (c ∷ s))
                  (omega (arith, length-drop-lt n c s long)))
              ∙ take-drop n (c ∷ s))
    ]

-- Whatever a file holds: the highlighted page, without what stands between a `<` and the next `>`, is the
-- escaped text unit for unit, and the escaped text has no unit that opens or closes a tag. So the tags of
-- the page are those that the highlighter puts in. Of entities that a tag is put into, nothing is said.
pub strip_tags-highlight :
    (source : Text)
    → (strip_tags false (highlight source) ≡ escape_html source) × All IsInert (escape_html source)
unfolding highlight
strip_tags-highlight source =
    let escaped = escape_html source in
    let whole = joined-tokenise (length escaped) true false escaped (omega arith) in
    (
      strip_tags-render_all (tokenise (length escaped) true false escaped)
            (subst (All IsInert) (sym whole) (escape_html-IsInert source))
          ∙ whole,
      escape_html-IsInert source,
    )
