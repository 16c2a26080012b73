-- ===== src/Preview/Overlay.antt =====
-- web/src/components/PreviewOverlay.vue: the overlay that shows a file and steps through the images
-- of its directory.
pub mod Template
pub mod Stepping
pub mod Loading
use mathlib.Core.Option
use easy_webdav.Prelude.{
  ℕ, zero, suc, ◌+◌, ◌-◌, ◌%◌, ◌≤◌, ◌<◌, ◌≡◌, refl, ap, ◌≢◌, Bool, true, false, ◌&&◌, not, List, [],
  ◌∷◌, ◌++◌, Option, none, some, Text, units, ltb, text_eq, join_nonempty, keep, length, get_elem?,
  if◌then◌else◌, arith, String, ◌||◌,
}
use easy_webdav.Api.Problem.{Reply, ok, err}
use easy_webdav.Api.Types.{Entry}
use easy_webdav.Api.Url.{Encoders, raw_url}
use easy_webdav.Preview.Kind.{PreviewKind, image, text, preview_kind, text_preview_limit}

-- An absent `directory` or `userId` is the empty text, which the code treats alike.
pub record Props : Type 0 where
  pub entry : Entry
  pub siblings : List Entry
  pub directory : Text
  pub user_id : Text

abbrev pub is_image : PreviewKind → Bool
is_image image = true
is_image _ = false

abbrev pub is_text : PreviewKind → Bool
is_text text = true
is_text _ = false

unfoldable pub preview_path : Props → Text
preview_path props = join_nonempty (props.directory ∷ props.entry.name ∷ [])

unfoldable pub preview_url : Encoders → Text → Props → Text
preview_url encoders base props = raw_url encoders base (preview_path props) props.user_id

-- `findIndex` by the name; `none` for -1.
unfoldable pub index_of : Text → List Entry → Option ℕ
index_of name [] = none
index_of name (item ∷ items) = elim (text_eq item.name name) [
  | true ↦ some 0
  | false ↦ Option.map suc (index_of name items)
]

pub data Direction : Type 0 where
  previous following : Direction

-- `(index + offset + length) % length` for the offsets -1 and 1.
unfoldable pub step_index : Direction → ℕ → ℕ → ℕ
step_index previous index size = (index + size - 1) % size
step_index following index size = (index + 1 + size) % size

module _ (lower : Text → Text) where
  unfoldable pub too_large : Props → Bool
  too_large props =
      is_text (preview_kind lower props.entry.name) && ltb text_preview_limit props.entry.size

  unfoldable pub images : List Entry → List Entry
  images siblings = keep (λ item. is_image (preview_kind lower item.name)) siblings

-- `step` over the images: the entry that it emits, if it emits one.
unfoldable pub step_images : Direction → Text → List Entry → Option Entry
step_images direction name items = elim (index_of name items) [
  | none ↦ none
  | some index ↦
      if ltb 1 (length items)
      then get_elem? items (step_index direction index (length items))
      else none
]

module _ (lower : Text → Text) where
  unfoldable pub step : Direction → Props → Option Entry
  step direction props = step_images direction props.entry.name (images lower props.siblings)

-- What the overlay shows of a text file.
pub record TextState : Type 0 where
  pub text : Text
  pub text_error : Text
  pub loading_text : Bool

module _ (lower : Text → Text) where
  -- Whether `loadText` goes on to its request.
  unfoldable pub is_loadable : Props → Bool
  unfolding too_large
  is_loadable props = is_text (preview_kind lower props.entry.name) && not (too_large lower props)

  -- `loadText` up to its request; the flag tells whether there is one.
  unfoldable pub begin_load : Props → TextState → TextState × Bool
  begin_load props state = (
    record state {
      text = [];
      text_error = [];
      loading_text = if is_loadable props then true else state.loading_text;
    },
    is_loadable props,
  )

module _ (t : String → Text) where
  -- `loadText` from the answer on: the text of a response that is `ok`, or a problem otherwise.
  unfoldable pub finish_load : Reply Text → TextState → TextState
  finish_load (ok content) state = record state { text = content; loading_text = false }
  finish_load (err problem) state = record state {
    text_error = t "previewUnsupported";
    loading_text = false;
  }
