-- ===== src/Shell/Texts/Line.antt =====
-- Keys that have a line of text in both catalogues of web/src/i18n.ts.
use easy_webdav.Prelude.{
  ◌≡◌, ◌∙◌, Bool, true, false, List, [], ◌∷◌, some, Text, units, String, if◌then◌else◌,
}
use easy_webdav.Messages.Catalogue.{one_line, kind_at}
use easy_webdav.Messages.En.{en}
use easy_webdav.Messages.Locale.{messages}
use easy_webdav.Messages.Laws.{kind_at-messages}
use easy_webdav.Screen.{Part, message, Label, Widget}
use easy_webdav.Screen.Labels.{HasKey, HasKeys, Speaks}

-- Whatever locale is chosen, the key has a message there, and it is a line of text.
abbrev pub HasLine : String → Type 0
HasLine key = (locale : Text) → kind_at key (messages locale) ≡ some one_line

-- Every key that is asked for has one.
abbrev pub IsSpoken : {E : Type 0} → List (Widget E) → Type 0
IsSpoken ws = Speaks HasLine ws

pub line : (key : String) → kind_at key en ≡ some one_line → HasLine key
unfolding messages
line key h locale = kind_at-messages key locale (units "en") ∙ h

pub either :
    (first second : String) (test : Bool)
    → HasLine first
    → HasLine second
    → HasLine (if test then first else second)
either first second true h k = h
either first second false h k = k

pub either_part :
    (first second : Part) (test : Bool)
    → HasKey HasLine first
    → HasKey HasLine second
    → HasKey HasLine (if test then first else second)
either_part first second true h k = h
either_part first second false h k = k

pub either_label :
    (first second : Label) (test : Bool)
    → HasKeys HasLine first
    → HasKeys HasLine second
    → HasKeys HasLine (if test then first else second)
either_label first second true h k = h
either_label first second false h k = k

-- The label of one message.
pub said : (key : String) → kind_at key en ≡ some one_line → HasKeys HasLine (message key ∷ [])
said key h = (line key h, tt)
