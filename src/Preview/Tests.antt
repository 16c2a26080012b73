-- ===== src/Preview/Tests.antt =====
-- The previews (web/src/highlight.ts, web/src/components/PreviewOverlay.vue) at concrete inputs.
use easy_webdav.Prelude.{
  is_space, ℕ, ◌≤◌, ◌≡◌, refl, false, List, [], ◌∷◌, Text, units, String, map, All,
}
use easy_webdav.Api.Types.{Entry}
use easy_webdav.Messages.Locale.{to_lower_unit}
use easy_webdav.Preview.Kind.{image, text, no_preview, extension_of, preview_kind}
use easy_webdav.Preview.Escape.{escape_html, entity, IsInert, read_html, escape_html_lem}
use easy_webdav.Preview.Highlight.{render, render_all, strip_tags, highlight, tokenise, ends_word}
use easy_webdav.Preview.Shown.{strip_tags-highlight}
use easy_webdav.Preview.Pattern.{
  match_at, match_string, quoted, until, match_comment, line_comment, indented, line_mark,
  line_rest, block_comment, match_number, digits, fraction, is_digit, is_word, starts_word,
  match_keyword, first_keyword,
}
use easy_webdav.Preview.Overlay.{Props, TextState}

abbrev lower : Text → Text
lower = map to_lower_unit

kinds :
    (preview_kind lower (units "photo.PNG") ≡ image)
    × (preview_kind lower (units "archive.zip") ≡ no_preview)
    × (preview_kind lower (units "notes.md") ≡ text)
unfolding preview_kind extension_of to_lower_unit
kinds = (refl, refl, refl)

escaped : escape_html (units "<a b=\"c\">") ≡ units "&lt;a b=&quot;c&quot;&gt;"
unfolding escape_html entity
escaped = refl

escape_html_lem_example :
    All IsInert (escape_html (units "a<b"))
    × ((rounds : ℕ) → 3 ≤ rounds → read_html rounds (escape_html (units "a<b")) ≡ units "a<b")
escape_html_lem_example = escape_html_lem (units "a<b")

-- A keyword and a number.
const_coloured :
    highlight (units "const a<2.5")
    ≡ units "<span class=\"tok-keyword\">const</span> a&lt;<span class=\"tok-number\">2.5</span>"
unfolding highlight tokenise ends_word render_all render escape_html entity match_at match_string
    quoted until match_comment line_comment indented line_mark line_rest block_comment match_number
    digits fraction is_digit is_word starts_word match_keyword first_keyword is_space
const_coloured = refl

-- A comment takes the line end before it.
comment_coloured :
    highlight (units "x\n # if") ≡ units "x<span class=\"tok-comment\">\n # if</span>"
unfolding highlight tokenise ends_word render_all render escape_html entity match_at match_string
    quoted until match_comment line_comment indented line_mark line_rest block_comment match_number
    digits fraction is_digit is_word starts_word match_keyword first_keyword is_space
comment_coloured = refl

string_coloured :
    highlight (units "\"as\" as")
    ≡ units "<span class=\"tok-string\">&quot;as&quot;</span> <span class=\"tok-keyword\">as</span>"
unfolding highlight tokenise ends_word render_all render escape_html entity match_at match_string
    quoted until match_comment line_comment indented line_mark line_rest block_comment match_number
    digits fraction is_digit is_word starts_word match_keyword first_keyword is_space
string_coloured = refl

-- With the line ends of Windows no line comment matches.
crlf_comment : highlight (units "# a\r\n") ≡ units "# a\r\n"
unfolding highlight tokenise ends_word render_all render escape_html entity match_at match_string
    quoted until match_comment line_comment indented line_mark line_rest block_comment match_number
    digits fraction is_digit is_word starts_word match_keyword first_keyword is_space
crlf_comment = refl

-- The number in the reference of a lone apostrophe is coloured, and the reference is torn apart.
lone_apostrophe : highlight (units "it's") ≡ units "it&#<span class=\"tok-number\">39</span>;s"
unfolding highlight tokenise ends_word render_all render escape_html entity match_at match_string
    quoted until match_comment line_comment indented line_mark line_rest block_comment match_number
    digits fraction is_digit is_word starts_word match_keyword first_keyword is_space
lone_apostrophe = refl

strip_tags-highlight_example :
    (strip_tags false (highlight (units "if a<b")) ≡ escape_html (units "if a<b"))
    × All IsInert (escape_html (units "if a<b"))
strip_tags-highlight_example = strip_tags-highlight (units "if a<b")

abbrev file : String → ℕ → Entry
file name size = record { name = units name; directory = false; size = size; modified = [] }

abbrev album : List Entry
album = file "a.png" 1 ∷ file "b.png" 2 ∷ file "c.png" 3 ∷ []

abbrev props_of : Entry → Props
props_of entry = record { entry = entry; siblings = []; directory = []; user_id = [] }

abbrev nothing_shown : TextState
nothing_shown = record { text = []; text_error = []; loading_text = false }
