-- ===== src/Messages/Laws.antt =====
-- That the two catalogues of web/src/i18n.ts agree, and that no error code of web/src/error-codes.ts is
-- without a message.
use easy_webdav.Prelude.{
  Bool, true, ◌&&◌, ◌≡◌, refl, inl, inr, List, [], ◌∷◌, Option, none, some, String, Text, units,
  text_eq, arith, Option-cases, ◌∙◌, Bool-cases,
}
use easy_webdav.Messages.Catalogue.{
  Catalogue, one_line, kind_at, kind_is, covers, kind_at-eq, kind_is_sound,
}
use easy_webdav.Messages.En.{en}
use easy_webdav.Messages.Zh.{zh}
use easy_webdav.Messages.ErrorCodes.{Table, entry, error_keys, error_key}
use easy_webdav.Messages.Locale.{messages, Language, initial_locale, toggle_locale}

en-covers-zh : covers en zh ≡ true
unfolding covers
en-covers-zh = refl

zh-covers-en : covers zh en ≡ true
unfolding covers
zh-covers-en = refl

-- Whatever two locales are chosen, a key has a message in the one exactly if it has one in the other,
-- and the two are of the same kind: a line, or a list of steps.
pub kind_at-messages :
    (key : String) (first second : Text)
    → kind_at key (messages first) ≡ kind_at key (messages second)
unfolding messages
kind_at-messages key first second =
    let same = kind_at-eq key en zh en-covers-zh zh-covers-en in ground (arith, same)

-- Every value of a table is the key of a line.
names_lines : Table → Catalogue → Bool
unfolding kind_at kind_is
names_lines [] catalogue = true
names_lines ((code, key) ∷ rest) catalogue =
    kind_is one_line (kind_at key catalogue) && names_lines rest catalogue

names_lines_sound :
    (table : Table) (catalogue : Catalogue) (code key : String)
    → names_lines table catalogue ≡ true
    → entry code table ≡ some key
    → kind_at key catalogue ≡ some one_line
unfolding names_lines entry
names_lines_sound [] catalogue code key h e = cc
names_lines_sound ((c, k) ∷ rest) catalogue code key h e =
    ground (
      arith,
      kind_is_sound one_line (kind_at k catalogue),
      names_lines_sound rest catalogue code key,
    )

error_keys-en : names_lines error_keys en ≡ true
unfolding names_lines
error_keys-en = refl

generic-en : kind_at "errors.generic" en ≡ some one_line
unfolding kind_at
generic-en = refl

error_key-en : (code : Option String) → kind_at (error_key code) en ≡ some one_line
unfolding error_key
error_key-en none = generic-en
error_key-en (some code) = elim (Option-cases (entry code error_keys)) [
  | inl missing ↦ rw (missing) generic-en
  | inr (key, found) ↦ rw (found) (names_lines_sound error_keys en code key error_keys-en found)
]

-- Every error of the server has a line of text to be shown in every locale: the key for its code, known
-- or unknown or absent, has one.
pub kind_at-error_key :
    (code : Option String) (locale : Text)
    → kind_at (error_key code) (messages locale) ≡ some one_line
unfolding messages
kind_at-error_key code locale =
    kind_at-messages (error_key code) locale (units "en") ∙ error_key-en code

-- A language that was switched to is the one that the panel starts with the next time, whatever the
-- browser prefers; and switching twice comes back to it.
pub initial_locale-toggle_locale :
    (language : Language) (languages : Option (List Text))
    → let next = toggle_locale language in
      (initial_locale next.stored languages ≡ next.locale)
      × (toggle_locale (toggle_locale next) ≡ next)
unfolding initial_locale toggle_locale
initial_locale-toggle_locale language languages =
    elim (Bool-cases (text_eq language.locale (units "en"))) [
      | inl english ↦ rw (english) (refl, refl)
      | inr other ↦ rw (other) (refl, refl)
    ]
