-- ===== src/Screen.antt =====
-- What a template of the panel (web/src, the `<template>` of each view) puts on the screen: its texts and
-- its controls, in the order in which they stand, each control with the event that it fires. The layout
-- is left out. `E` are the events of a view.
pub mod Labels
use mathlib.Core.Option.{some-injective}
use easy_webdav.Prelude.{
  zero, suc, get_elem?, subst, sym, ℕ, ◌≡◌, refl, ◌⊎◌, inl, inr, Bool, true, false, List, [], ◌∷◌,
  ◌++◌, Option, none, some, Text, String, All, if◌then◌else◌,
}

-- A part of a text: a message, a message with a value filled in, or a text as it stands.
pub data Part : Type 0 where
  message : String → Part
  filled : String → Text → Part
  raw : Text → Part

abbrev pub Label : Type 0
Label = List Part

pub data Widget (E : Type 0) : Type 0 where
  -- a text, and the bar of a percentage
  shows : Label → Widget E
  bar : ℕ → Widget E
  -- a button: its label, whether it is enabled, and its event
  button : Label → Bool → E → Widget E
  -- a field with its label and value, a box with its label and state, and a choice of options
  field : Label → Text → (Text → E) → Widget E
  box : Label → Bool → (Bool → E) → Widget E
  choice : Label → List (Label × E) → Widget E
  -- an input for files; what is chosen there comes from the platform
  file_input : Widget E

module _ {E : Type 0} where
  -- `v-if`.
  abbrev pub when : Bool → List (Widget E) → List (Widget E)
  when test widgets = if test then widgets else []

  -- `v-for`.
  abbrev pub for_each {ℓ} : {A : Type ℓ} → List A → (A → List (Widget E)) → List (Widget E)
  for_each [] f = []
  for_each (x ∷ xs) f = f x ++ for_each xs f

  -- An option of a choice, or an event that a control can fire.
  pub data IsOption (e : E) : List (Label × E) → Type 0 where
    first : {label : Label} {options : List (Label × E)} → IsOption e ((label, e) ∷ options)
    next :
        {option : Label × E} {options : List (Label × E)}
        → IsOption e options
        → IsOption e (option ∷ options)

  pub data Fires : Widget E → E → Type 0 where
    pressed : {label : Label} {e : E} → Fires (button label true e) e
    typed :
        {label : Label} {value : Text} {f : Text → E} (s : Text) → Fires (field label value f) (f s)
    ticked :
        {label : Label} {value : Bool} {f : Bool → E} (b : Bool) → Fires (box label value f) (f b)
    chosen :
        {label : Label} {e : E} {options : List (Label × E)}
        → IsOption e options
        → Fires (choice label options) e

  -- A screen offers the events of its controls.
  pub data Offers : List (Widget E) → E → Type 0 where
    here : {w : Widget E} {ws : List (Widget E)} {e : E} → Fires w e → Offers (w ∷ ws) e
    there : {w : Widget E} {ws : List (Widget E)} {e : E} → Offers ws e → Offers (w ∷ ws) e

  -- The control at a position is offered.
  pub Offers-at :
      (ws : List (Widget E)) (k : ℕ) (w : Widget E) (e : E)
      → get_elem? ws k ≡ some w
      → Fires w e
      → Offers ws e
  Offers-at [] k w e h f = cc
  Offers-at (v ∷ ws) zero w e h f = here (subst (λ u. Fires u e) (sym (some-injective _ _ h)) f)
  Offers-at (v ∷ ws) (suc k) w e h f = there (Offers-at ws k w e h f)

  -- That every event of a control, and of a screen, has a property.
  module _ (P : E → Type 0) where
    abbrev pub AllOptions : List (Label × E) → Type 0
    AllOptions options = All (λ option. P option.1) options

    abbrev pub OnlyFires : Widget E → Type 0
    OnlyFires (shows label) = Unit
    OnlyFires (bar n) = Unit
    OnlyFires (button label enabled e) = (enabled ≡ true) → P e
    OnlyFires (field label value f) = (s : Text) → P (f s)
    OnlyFires (box label value f) = (b : Bool) → P (f b)
    OnlyFires (choice label options) = AllOptions options
    OnlyFires file_input = Unit

    abbrev pub Only : List (Widget E) → Type 0
    Only ws = All OnlyFires ws

    IsOption-AllOptions :
        {e : E} {options : List (Label × E)} → IsOption e options → AllOptions options → P e
    IsOption-AllOptions first (p, h) = p
    IsOption-AllOptions (next o) (p, h) = IsOption-AllOptions o h

    Fires-OnlyFires : {w : Widget E} {e : E} → Fires w e → OnlyFires w → P e
    Fires-OnlyFires pressed h = h refl
    Fires-OnlyFires (typed s) h = h s
    Fires-OnlyFires (ticked b) h = h b
    Fires-OnlyFires (chosen o) h = IsOption-AllOptions o h

    -- What holds of all the controls holds of what is offered.
    pub Offers-Only : {ws : List (Widget E)} {e : E} → Offers ws e → Only ws → P e
    Offers-Only (here f) (h, _) = Fires-OnlyFires f h
    Offers-Only (there o) (_, h) = Offers-Only o h

    pub Only-append : (xs ys : List (Widget E)) → Only xs → Only ys → Only (xs ++ ys)
    Only-append [] ys h k = k
    Only-append (x ∷ xs) ys (p, h) k = (p, Only-append xs ys h k)

    pub Only-when :
        (test : Bool) (ws : List (Widget E)) → (test ≡ true → Only ws) → Only (when test ws)
    Only-when true ws h = h refl
    Only-when false ws h = tt

    pub Only-if :
        (test : Bool) (xs ys : List (Widget E)) → Only xs → Only ys → Only (if test then xs else ys)
    Only-if true xs ys h k = h
    Only-if false xs ys h k = k

    pub Only-for_each {ℓ} :
        {A : Type ℓ} (xs : List A) (f : A → List (Widget E))
        → ((x : A) → Only (f x))
        → Only (for_each xs f)
    Only-for_each [] f h = tt
    Only-for_each (x ∷ xs) f h = Only-append (f x) (for_each xs f) (h x) (Only-for_each xs f h)

    -- For a list whose elements have a property of their own.
    pub Only-for_each_of {ℓ} :
        {A : Type ℓ} (Q : A → Type 0) (xs : List A) (f : A → List (Widget E))
        → All Q xs
        → ((x : A) → Q x → Only (f x))
        → Only (for_each xs f)
    Only-for_each_of Q [] f h k = tt
    Only-for_each_of Q (x ∷ xs) f (q, h) k =
        Only-append (f x) (for_each xs f) (k x q) (Only-for_each_of Q xs f h k)
