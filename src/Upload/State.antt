-- ===== src/Upload/State.antt =====
-- web/src/upload-state.ts: the state of one upload and its transitions.
use easy_webdav.Prelude.{ℕ, ◌+◌, ◌-◌, ◌/◌, ◌*◌, min, max, leb, ◌==◌, if◌then◌else◌}

pub data UploadStatus : Type 0 where
  queued uploading retrying complete failed : UploadStatus

pub record UploadState : Type 0 where
  pub status : UploadStatus
  pub completed : ℕ
  pub total : ℕ
  pub attempts : ℕ

abbrev pub chunk_size : ℕ
chunk_size = 8 * 1024 * 1024

abbrev pub upload_concurrency : ℕ
upload_concurrency = 3

abbrev pub max_attempts : ℕ
max_attempts = 3

unfoldable pub start_upload : ℕ → UploadState
start_upload total = record { status = queued; completed = 0; total = total; attempts = 0 }

unfoldable pub mark_chunk : UploadState → UploadState
mark_chunk state = record state {
  status = uploading;
  completed = min state.total (state.completed + 1);
  attempts = 0;
}

unfoldable pub mark_retry : UploadState → UploadState
mark_retry state = record state {
  attempts = state.attempts + 1;
  status = if leb max_attempts (state.attempts + 1) then failed else retrying;
}

unfoldable pub finish_upload : UploadState → UploadState
finish_upload state = record state {
  status = if state.completed == state.total then complete else failed;
}

-- `Math.ceil(size / CHUNK_SIZE)`: the divisor is a power of two, so the quotient of a size below
-- 2^53 is exact and its ceiling is that of the fraction.
unfoldable pub chunk_count : ℕ → ℕ
chunk_count size = max 1 ((size + (chunk_size - 1)) / chunk_size)
