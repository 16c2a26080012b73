-- ===== src/Screen/Labels.antt =====
-- The messages that a screen asks for.
use easy_webdav.Prelude.{Bool, true, false, List, [], ◌∷◌, ◌++◌, String, All, if◌then◌else◌}
use easy_webdav.Screen.{
  Part, message, filled, raw, Label, Widget, shows, bar, button, field, box, choice, file_input,
  when, for_each,
}

-- That every key of a label, and of a screen, has a property.
module _ (P : String → Type 0) where
  abbrev pub HasKey : Part → Type 0
  HasKey (message key) = P key
  HasKey (filled key value) = P key
  HasKey (raw s) = Unit

  abbrev pub HasKeys : Label → Type 0
  HasKeys label = All HasKey label

  module _ {E : Type 0} where
    abbrev pub HasOptions : List (Label × E) → Type 0
    HasOptions options = All (λ option. HasKeys option.0) options

    abbrev pub HasLabels : Widget E → Type 0
    HasLabels (shows label) = HasKeys label
    HasLabels (bar n) = Unit
    HasLabels (button label enabled e) = HasKeys label
    HasLabels (field label value f) = HasKeys label
    HasLabels (box label value f) = HasKeys label
    HasLabels (choice label options) = HasKeys label × HasOptions options
    HasLabels file_input = Unit

    abbrev pub Speaks : List (Widget E) → Type 0
    Speaks ws = All HasLabels ws

    pub Speaks-append : (xs ys : List (Widget E)) → Speaks xs → Speaks ys → Speaks (xs ++ ys)
    Speaks-append [] ys h k = k
    Speaks-append (x ∷ xs) ys (p, h) k = (p, Speaks-append xs ys h k)

    pub Speaks-when : (test : Bool) (ws : List (Widget E)) → Speaks ws → Speaks (when test ws)
    Speaks-when true ws h = h
    Speaks-when false ws h = tt

    pub Speaks-if :
        (test : Bool) (xs ys : List (Widget E))
        → Speaks xs
        → Speaks ys
        → Speaks (if test then xs else ys)
    Speaks-if true xs ys h k = h
    Speaks-if false xs ys h k = k

    pub Speaks-for_each {ℓ} :
        {A : Type ℓ} (xs : List A) (f : A → List (Widget E))
        → ((x : A) → Speaks (f x))
        → Speaks (for_each xs f)
    Speaks-for_each [] f h = tt
    Speaks-for_each (x ∷ xs) f h =
        Speaks-append (f x) (for_each xs f) (h x) (Speaks-for_each xs f h)
