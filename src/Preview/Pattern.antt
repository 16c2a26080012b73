-- ===== src/Preview/Pattern.antt =====
-- web/src/highlight.ts, lines 1-6 and 26-34: the pattern of the highlighter. Each function tells how many
-- units an alternative of the pattern matches from where the text stands. What the pattern repeats never
-- overlaps with what has to follow, so that no alternative has a second way to match, but for the
-- fraction of a number and the keyword, whose choices are written out.
use easy_webdav.Prelude.{
  ℕ, ◌+◌, Bool, false, ◌&&◌, ◌||◌, not, leb, ltb, List, [], ◌∷◌, Option, none, some, Text, units,
  starts_with, is_space, length, drop, ◌==◌, if◌then◌else◌,
}

-- What is inside `\b(…)\b` of the last alternative; none of the words holds a character to escape.
abbrev pub keywords : List Text
keywords =
    units "abstract"
    ∷ units "as"
    ∷ units "async"
    ∷ units "await"
    ∷ units "break"
    ∷ units "case"
    ∷ units "catch"
    ∷ units "class"
    ∷ units "const"
    ∷ units "continue"
    ∷ units "def"
    ∷ units "default"
    ∷ units "defer"
    ∷ units "delete"
    ∷ units "do"
    ∷ units "else"
    ∷ units "enum"
    ∷ units "export"
    ∷ units "extends"
    ∷ units "false"
    ∷ units "finally"
    ∷ units "for"
    ∷ units "from"
    ∷ units "func"
    ∷ units "function"
    ∷ units "go"
    ∷ units "if"
    ∷ units "implements"
    ∷ units "import"
    ∷ units "in"
    ∷ units "instanceof"
    ∷ units "interface"
    ∷ units "let"
    ∷ units "map"
    ∷ units "new"
    ∷ units "nil"
    ∷ units "null"
    ∷ units "package"
    ∷ units "pass"
    ∷ units "private"
    ∷ units "protected"
    ∷ units "public"
    ∷ units "range"
    ∷ units "return"
    ∷ units "self"
    ∷ units "static"
    ∷ units "struct"
    ∷ units "super"
    ∷ units "switch"
    ∷ units "this"
    ∷ units "throw"
    ∷ units "true"
    ∷ units "try"
    ∷ units "type"
    ∷ units "typeof"
    ∷ units "var"
    ∷ units "void"
    ∷ units "while"
    ∷ units "with"
    ∷ units "yield"
    ∷ []

-- The group of the pattern that matched, or the text between two matches.
pub data Group : Type 0 where
  string comment number keyword unmatched : Group

unfoldable pub is_digit : ℕ → Bool
is_digit c = leb 48 c && leb c 57

-- A word character, as `\b` reads it.
unfoldable pub is_word : ℕ → Bool
is_word c = is_digit c || (leb 65 c && leb c 90) || c == 95 || (leb 97 c && leb c 122)

unfoldable pub starts_word : Text → Bool
starts_word [] = false
starts_word (c ∷ s) = is_word c

-- `k` units and then those of a match.
abbrev pub after : ℕ → Option ℕ → Option ℕ
after k none = none
after k (some n) = some (k + n)

-- Up to the end of the first place where a text stands.
unfoldable pub until : Text → Text → Option ℕ
until mark [] = none
until mark (c ∷ s) =
    let rest = after 1 (until mark s) in
    if starts_with mark (c ∷ s) then some (length mark) else rest

-- A mark, and on to the end of its next one.
unfoldable pub quoted : Text → Text → Option ℕ
quoted mark s =
    if starts_with mark s then after (length mark) (until mark (drop (length mark) s)) else none

abbrev pub first_of : Option ℕ → Option ℕ → Option ℕ
first_of none second = second
first_of (some n) second = some n

unfoldable pub match_string : Text → Option ℕ
match_string s =
    first_of (quoted (units "&quot;") s)
      (first_of (quoted (units "&#39;") s) (quoted (units "`") s))

-- `.*?(?=\n|$)`: a dot matches no line end.
unfoldable pub line_rest : Text → Option ℕ
line_rest [] = some 0
line_rest (c ∷ s) =
    let rest = after 1 (line_rest s) in
    if c == 10 then some 0 else if c == 13 || c == 8232 || c == 8233 then none else rest

-- `(?:#|//|--)` and the rest of the line.
unfoldable pub line_mark : Text → Option ℕ
line_mark s =
    if starts_with (units "#") s
    then after 1 (line_rest (drop 1 s))
    else if starts_with (units "//") s || starts_with (units "--") s
    then after 2 (line_rest (drop 2 s))
    else none

-- `\s*` and the mark.
unfoldable pub indented : Text → Option ℕ
indented [] = none
indented (c ∷ s) = let rest = after 1 (indented s) in if is_space c then rest else line_mark (c ∷ s)

-- `(?:^|\n)`: the flag tells whether the text stands at its start.
unfoldable pub line_comment : Bool → Text → Option ℕ
line_comment at_start [] = none
line_comment at_start (c ∷ s) =
    if at_start then indented (c ∷ s) else if c == 10 then after 1 (indented s) else none

unfoldable pub block_comment : Text → Option ℕ
block_comment s =
    if starts_with (units "/*") s then after 2 (until (units "*/") (drop 2 s)) else none

unfoldable pub match_comment : Bool → Text → Option ℕ
match_comment at_start s = first_of (line_comment at_start s) (block_comment s)

unfoldable pub digits : Text → ℕ
digits [] = 0
digits (c ∷ s) = let rest = digits s in if is_digit c then 1 + rest else 0

-- The `.` and the digits of a fraction, 0 if there is none.
unfoldable pub fraction : Text → ℕ
fraction [] = 0
fraction (c ∷ s) = if c == b'.' && ltb 0 (digits s) then 1 + digits s else 0

-- The whole part alone matches where a word character stands behind the fraction. `prev` tells whether
-- one stands before.
unfoldable pub match_number : Bool → Text → Option ℕ
match_number prev s =
    let whole = digits s in
    let long = whole + fraction (drop whole s) in
    if prev || whole == 0
    then none
    else if not (starts_word (drop long s))
    then some long
    else if not (starts_word (drop whole s))
    then some whole
    else none

unfoldable pub first_keyword : List Text → Text → Option ℕ
first_keyword [] s = none
first_keyword (word ∷ words) s =
    let rest = first_keyword words s in
    if starts_with word s && not (starts_word (drop (length word) s))
    then some (length word)
    else rest

unfoldable pub match_keyword : Bool → Text → Option ℕ
match_keyword prev s = if prev then none else first_keyword keywords s

-- The alternatives in their order, with the group that is set.
unfoldable pub match_at : Bool → Bool → Text → Option (Group × ℕ)
match_at at_start prev s = elim (match_string s) [
  | some n ↦ some (string, n)
  | none ↦ elim (match_comment at_start s) [
    | some n ↦ some (comment, n)
    | none ↦ elim (match_number prev s) [
      | some n ↦ some (number, n)
      | none ↦ elim (match_keyword prev s) [ some n ↦ some (keyword, n) | none ↦ none ]
    ]
  ]
]
