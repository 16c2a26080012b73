-- ===== src/Preview/Overlay/Loading.antt =====
-- When the overlay (web/src/components/PreviewOverlay.vue) shows the text of a file.
use easy_webdav.Prelude.{◌≤◌, ◌≡◌, refl, true, [], Text, String, arith, ◌↔◌}
use easy_webdav.Api.Problem.{ok}
use easy_webdav.Preview.Kind.{text, preview_kind, text_preview_limit}
use easy_webdav.Preview.Overlay.{Props, TextState, is_loadable, too_large, begin_load, finish_load}

module _ (lower : Text → Text) where
  -- A request for the text is made exactly for files of a text kind of at most the limit's size; at any
  -- other file the overlay shows no text.
  pub begin_load_lem :
      (props : Props) (state : TextState)
      → (((begin_load lower props state).1 ≡ true) ↔ (
          (preview_kind lower props.entry.name ≡ text) × (props.entry.size ≤ text_preview_limit)))
        × ((begin_load lower props state).0.text ≡ [])
        × ((begin_load lower props state).0.text_error ≡ [])
  unfolding begin_load is_loadable too_large
  begin_load_lem props state = ground arith

  -- An answer is shown whatever file the overlay has gone on to: if the answer for the first of two
  -- text files arrives after that for the second, the overlay of the second shows the first.
  pub finish_load_late :
      (t : String → Text) (first second : Props) (state : TextState) (a b : Text)
      → (begin_load lower first state).1 ≡ true
      → (begin_load lower second (begin_load lower first state).0).1 ≡ true
      → (finish_load t
          (ok a)
          (finish_load t (ok b) (begin_load lower second (begin_load lower first state).0).0)).text
        ≡ a
  unfolding finish_load
  finish_load_late t first second state a b p q = refl
