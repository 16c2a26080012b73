-- ===== src/Upload/Session/Flicker.antt =====
-- The status that `markRetry` (web/src/upload-state.ts) shows while `runUpload` still retries.
use easy_webdav.Prelude.{zero, ◌<◌}
use easy_webdav.Prelude.{
  ℕ, ◌≤◌, ◌≡◌, refl, arith, none, [], ◌∷◌, List, min, range_from, suc, length,
}
use easy_webdav.Api.Problem.{Problem, ok, err}
use easy_webdav.Upload.State.{failed, uploading, chunk_count, mark_retry, mark_chunk, start_upload}
use easy_webdav.Upload.Chunks.{chunk_indices}
use easy_webdav.Upload.Workers.{
  step, run_events, start_workers, start_worker, initial, accept, reject,
}
use easy_webdav.Upload.Session.{UploadTask, restart, transfer, Run, UploadState, Event}

-- The orders in which three workers can fail.
pub data Order : ℕ → ℕ → ℕ → Type 0 where
  in_turn : Order 0 1 2
  first_last : Order 1 2 0
  third_first : Order 2 0 1
  first_two_swapped : Order 1 0 2
  last_two_swapped : Order 0 2 1
  backwards : Order 2 1 0

abbrev pub failures : ℕ → ℕ → ℕ → Problem → Problem → Problem → List Event
failures a b c p q r = (a, err p) ∷ (b, err q) ∷ (c, err r) ∷ []

-- The status is failed although no failure is recorded, and changes when the worker `k` is answered.
abbrev pub Flickers : ℕ → Run → Type 0
Flickers k run =
    (run.state.status ≡ failed)
    × (run.failure ≡ none)
    × ((step run (k, ok tt)).state.status ≡ uploading)

module _ (state : UploadState) (m : ℕ) (p q r : Problem) (fresh : state.attempts ≡ 0) where
  abbrev after : ℕ → ℕ → ℕ → Run
  after a b c =
      run_events (start_workers 3 (initial state (range_from 0 (suc (suc (suc m))))))
        (failures a b c p q r)

  -- Three workers over a queue of at least three chunks.
  three_workers : (a b c k : ℕ) → Order a b c → k < 3 → Flickers k (after a b c)
  unfolding step run_events start_workers start_worker initial accept reject mark_retry mark_chunk
  three_workers a b c zero in_turn h = ground arith
  three_workers a b c (suc zero) in_turn h = ground arith
  three_workers a b c (suc (suc zero)) in_turn h = ground arith
  three_workers a b c (suc (suc (suc k))) order h = absurd (omega arith)
  three_workers a b c zero first_last h = ground arith
  three_workers a b c (suc zero) first_last h = ground arith
  three_workers a b c (suc (suc zero)) first_last h = ground arith
  three_workers a b c zero third_first h = ground arith
  three_workers a b c (suc zero) third_first h = ground arith
  three_workers a b c (suc (suc zero)) third_first h = ground arith
  three_workers a b c zero first_two_swapped h = ground arith
  three_workers a b c (suc zero) first_two_swapped h = ground arith
  three_workers a b c (suc (suc zero)) first_two_swapped h = ground arith
  three_workers a b c zero last_two_swapped h = ground arith
  three_workers a b c (suc zero) last_two_swapped h = ground arith
  three_workers a b c (suc (suc zero)) last_two_swapped h = ground arith
  three_workers a b c zero backwards h = ground arith
  three_workers a b c (suc zero) backwards h = ground arith
  three_workers a b c (suc (suc zero)) backwards h = ground arith

chunk_workers :
    (state : UploadState) (n a b c k : ℕ) (p q r : Problem)
    → 3 ≤ n
    → state.attempts ≡ 0
    → Order a b c
    → k < 3
    → Flickers k (
        run_events
          (start_workers (min 3 (length (range_from 0 n))) (initial state (range_from 0 n)))
          (failures a b c p q r))
chunk_workers state zero a b c k p q r h z order l = absurd (omega arith)
chunk_workers state (suc zero) a b c k p q r h z order l = absurd (omega arith)
chunk_workers state (suc (suc zero)) a b c k p q r h z order l = absurd (omega arith)
chunk_workers state (suc (suc (suc m))) a b c k p q r h z order l =
    let e : min 3 (length (range_from 0 (suc (suc (suc m))))) ≡ 3 = omega arith in
    rw e (three_workers state m p q r z a b c k order l)

-- For a file of three chunks or more: if the first three answers are a failure for each of the three
-- workers, in whichever order, the shared status is failed, although no failure is recorded; and if the
-- next answer is an acceptance, whichever of the workers it is for, the status is uploading again.
pub transfer-Flickers :
    (task : UploadTask) (a b c k : ℕ) (p q r : Problem)
    → 3 ≤ chunk_count task.file.size
    → Order a b c
    → k < 3
    → Flickers k (transfer task (failures a b c p q r))
unfolding transfer restart start_upload chunk_indices
transfer-Flickers task a b c k p q r h order l =
    chunk_workers (restart task.state) (chunk_count task.file.size) a b c k p q r h refl order l
