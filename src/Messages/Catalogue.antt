-- ===== src/Messages/Catalogue.antt =====
-- web/src/i18n.ts: a catalogue of messages. A nested key is written with its dots, as the code asks for
-- it; a message is a line of text or a list of steps.
use easy_webdav.Prelude.{
  Bool, true, false, ◌&&◌, List, [], ◌∷◌, Option, none, some, String, str_eq, str_eq_iff,
  if◌then◌else◌, ◌≡◌, refl, arith, inl, inr, Option-cases, ◌∙◌, sym,
}

pub data Message : Type 0 where
  line : String → Message
  steps : List String → Message

pub data Kind : Type 0 where
  one_line several_steps : Kind

abbrev pub Catalogue : Type 0
Catalogue = List (String × Message)

abbrev pub kind_of : Message → Kind
kind_of (line text) = one_line
kind_of (steps texts) = several_steps

-- What kind of message a catalogue has under a key, if it has one.
unfoldable pub kind_at : String → Catalogue → Option Kind
kind_at key [] = none
kind_at key ((k, m) ∷ rest) = if str_eq k key then some (kind_of m) else kind_at key rest

unfoldable pub kind_is : Kind → Option Kind → Bool
kind_is one_line (some one_line) = true
kind_is several_steps (some several_steps) = true
kind_is _ _ = false

-- Every entry of the first catalogue has an entry of its kind in the second.
unfoldable pub covers : Catalogue → Catalogue → Bool
unfolding kind_at kind_is
covers [] other = true
covers ((k, m) ∷ rest) other = kind_is (kind_of m) (kind_at k other) && covers rest other

pub kind_is_sound : (k : Kind) (o : Option Kind) → kind_is k o ≡ true → o ≡ some k
unfolding kind_is
kind_is_sound one_line (some one_line) h = refl
kind_is_sound one_line (some several_steps) h = cc
kind_is_sound one_line none h = cc
kind_is_sound several_steps (some several_steps) h = refl
kind_is_sound several_steps (some one_line) h = cc
kind_is_sound several_steps none h = cc

pub kind_at-covers :
    (key : String) (kind : Kind) (first second : Catalogue)
    → covers first second ≡ true
    → kind_at key first ≡ some kind
    → kind_at key second ≡ some kind
unfolding covers kind_at
kind_at-covers key kind [] second h e = cc
kind_at-covers key kind ((k, m) ∷ rest) second h e = ground (
  arith,
  str_eq_iff k key,
  kind_is_sound (kind_of m) (kind_at k second),
  kind_at-covers key kind rest second,
)

-- Two catalogues that cover each other have the same keys, with messages of the same kinds.
pub kind_at-eq :
    (key : String) (first second : Catalogue)
    → covers first second ≡ true
    → covers second first ≡ true
    → kind_at key first ≡ kind_at key second
kind_at-eq key first second h k = elim (Option-cases (kind_at key first)) [
  | inr (kind, e) ↦ e ∙ sym (kind_at-covers key kind first second h e)
  | inl e ↦ elim (Option-cases (kind_at key second)) [
    | inl e' ↦ e ∙ sym e'
    | inr (kind, e') ↦ cc (kind_at-covers key kind second first k e')
  ]
]
