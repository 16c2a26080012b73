-- ===== src/Upload/Progress.antt =====
-- How far an upload is, in per cent: the bar of web/src/views/FileBrowserView.vue, and `progress` of
-- web/src/upload-state.ts, which the panel does not call.
use easy_webdav.Prelude.{
  ℕ, ◌+◌, ◌≤◌, ◌<◌, ◌≡◌, arith, min, if◌then◌else◌, ◌==◌, Text, ◌∙◌, sym, max,
}
use easy_webdav.Floats.{Floats, max_safe, percent, percent_mono, percent_self}
use easy_webdav.Api.Url.{Encoders}
use easy_webdav.Upload.State.{UploadStatus, complete, UploadState, mark_chunk, chunk_count}
use easy_webdav.Upload.Session.{UploadTask, Handlers, Answers, returned_url, run_upload}
use easy_webdav.Upload.Session.Delivery.{IsSized, run_upload-delivers}

abbrev when_complete : UploadStatus → ℕ
when_complete complete = 100
when_complete _ = 0

module _ (floats : Floats) where
  -- `Math.round((task.state.completed / Math.max(1, task.state.total)) * 100)`.
  unfoldable pub bar_percent : UploadState → ℕ
  bar_percent state = percent floats state.completed (max 1 state.total)

  unfoldable pub progress : UploadState → ℕ
  progress state =
      if state.total == 0
      then when_complete state.status
      else min 100 (percent floats state.completed state.total)

  -- For a state whose counter is within its total, which is a positive safe integer, one more chunk
  -- does not lower the percentage, and the percentage stays within a hundred.
  pub progress-mark_chunk :
      (state : UploadState)
      → state.completed ≤ state.total
      → 0 < state.total
      → state.total < max_safe
      → (progress state ≤ progress (mark_chunk state)) × (progress (mark_chunk state) ≤ 100)
  unfolding progress mark_chunk
  progress-mark_chunk state h p q =
      let more =
        percent_mono floats state.completed (min state.total (state.completed + 1)) state.total
          (omega arith) (omega arith) p q in
      (ground arith, ground arith)

  progress_full :
      (state : UploadState)
      → state.completed ≡ state.total
      → 0 < state.total
      → state.total < max_safe
      → progress state ≡ 100
  unfolding progress
  progress_full state h p q = ground (arith, percent_self floats state.total p q, h)

  chunk_count_bounds :
      (size : ℕ) → size < max_safe → (0 < chunk_count size) × (chunk_count size < max_safe)
  unfolding chunk_count
  chunk_count_bounds size h = omega arith

  bar_percent_full :
      (state : UploadState)
      → state.completed ≡ state.total
      → 0 < state.total
      → state.total < max_safe
      → bar_percent state ≡ 100
  unfolding bar_percent
  bar_percent_full state h p q = ground (arith, percent_self floats state.total p q, h)

  -- For every file of fewer bytes than the safe integers go: when an upload has returned its address,
  -- its bar in the file browser stands at a hundred per cent, and `progress` gives the same.
  pub progress-run_upload :
      (encoders : Encoders) (base : Text) (task : UploadTask) (handlers : Handlers)
      (answers : Answers) (url : Text)
      → IsSized task
      → task.file.size < max_safe
      → (run_upload encoders base task handlers answers).1 ≡ returned_url url
      → (bar_percent (run_upload encoders base task handlers answers).0.state ≡ 100)
        × (progress (run_upload encoders base task handlers answers).0.state ≡ 100)
  progress-run_upload encoders base task handlers answers url sized small e =
      let (_, completed, total, _) =
        run_upload-delivers encoders base task handlers answers url sized e in
      let state = (run_upload encoders base task handlers answers).0.state in
      let bounds = chunk_count_bounds task.file.size small in
      (
        bar_percent_full state (completed ∙ sym total) (omega (arith, total, bounds))
            (omega (arith, total, bounds)),
        progress_full state (completed ∙ sym total) (omega (arith, total, bounds))
            (omega (arith, total, bounds)),
      )
