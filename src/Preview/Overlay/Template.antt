-- ===== src/Preview/Overlay/Template.antt =====
-- web/src/components/PreviewOverlay.vue, lines 23, 47-49 and 54-78: the template, and its events.
use easy_webdav.Prelude.{
  Bool, true, false, ◌&&◌, not, List, [], ◌∷◌, ◌++◌, Option, none, some, Text, units, is_truthy,
  ltb, length, if◌then◌else◌,
}
use easy_webdav.Api.Types.{Entry}
use easy_webdav.Api.Url.{Encoders}
use easy_webdav.Format.Size.{format_size}
use easy_webdav.Screen.{message, raw, Widget, shows, button}
use easy_webdav.Preview.Kind.{
  no_preview, image, text, pdf, video, audio, extension_of, preview_kind,
}
use easy_webdav.Preview.Highlight.{highlight}
use easy_webdav.Preview.Overlay.{
  Props, Direction, previous, following, preview_url, index_of, too_large, images, TextState, step,
}

pub data OverlayEvent : Type 0 where
  steps : Direction → OverlayEvent
  closes opens_raw : OverlayEvent

-- What stands in the overlay: a medium with its address; a page with the text, once there is one, and
-- whether it is loading; or a card.
pub data OverlayPane : Type 0 where
  picture document film sound : Text → OverlayPane
  page : Option Text → Bool → OverlayPane
  card : List (Widget OverlayEvent) → OverlayPane

module _ (lower : Text → Text) where
  unfoldable pub has_siblings : Props → Bool
  has_siblings props =
      let items = images lower props.siblings in
      ltb 1 (length items)
      && (elim (index_of props.entry.name items) [ none ↦ false | some _ ↦ true ])

  unfoldable pub overlay_head : Props → List (Widget OverlayEvent)
  overlay_head props =
      shows (raw props.entry.name ∷ [])
      ∷ button (message "previewPrevious" ∷ raw (units "◀") ∷ []) (has_siblings props)
          (steps previous)
      ∷ button (message "previewNext" ∷ raw (units "▶") ∷ []) (has_siblings props) (steps following)
      ∷ button [] true closes
      ∷ []

  -- The card of a file that is not shown; `date` is `formatDate`.
  unfoldable pub info_card : (Text → Text) → Props → TextState → List (Widget OverlayEvent)
  info_card date props state =
      let extension = extension_of lower props.entry.name in
      shows (raw props.entry.name ∷ [])
      ∷ shows (
          (if is_truthy extension then raw extension else message "file")
          ∷ raw (
              units " · "
              ++ (format_size props.entry.size ++ (units " · " ++ date props.entry.modified)))
          ∷ [])
      ∷ shows (
          (if is_truthy state.text_error
            then raw state.text_error
            else message
                (if too_large lower props then "previewTooLarge" else "previewUnsupported"))
          ∷ [])
      ∷ button (message "rawFile" ∷ []) true opens_raw
      ∷ []

  -- The text of a page is its HTML.
  abbrev page_of : TextState → OverlayPane
  page_of state =
      page (if is_truthy state.text then some (highlight state.text) else none) state.loading_text

  unfoldable pub overlay_pane : (Text → Text) → Encoders → Text → Props → TextState → OverlayPane
  overlay_pane date encoders base props state =
      let url = preview_url encoders base props in
      elim (preview_kind lower props.entry.name) [
        | image ↦ picture url
        | pdf ↦ document url
        | video ↦ film url
        | audio ↦ sound url
        | text ↦
            if not (too_large lower props) && not (is_truthy state.text_error)
            then page_of state
            else card (info_card date props state)
        | no_preview ↦ card (info_card date props state)
      ]

-- What the overlay emits.
pub data Emitted : Type 0 where
  nothing close : Emitted
  update_entry : Entry → Emitted

abbrev stepped : Option Entry → Emitted
stepped none = nothing
stepped (some entry) = update_entry entry

-- `onVisibility`.
unfoldable pub on_visibility : Bool → Emitted
on_visibility shown = if shown then nothing else close

module _ (lower : Text → Text) where
  -- `opens_raw` is a link, which the document follows.
  unfoldable pub press_overlay : OverlayEvent → Props → Emitted
  press_overlay (steps direction) props = stepped (step lower direction props)
  press_overlay closes props = close
  press_overlay opens_raw props = nothing
