-- ===== src/Upload/Tests.antt =====
-- Runs of the uploader (web/src/upload-state.ts, web/src/uploader.ts) on small inputs, and the
-- theorems about it at concrete inputs.
use easy_webdav.Upload.Session.Lifecycle.{Stage, Lives, under_way, done, stage_of, transfer-Lives}
use mathlib.Core.List.{flatten}
use easy_webdav.Prelude.{
  ℕ, ◌+◌, ◌*◌, ◌≤◌, ◌<◌, ◌≡◌, refl, List, [], ◌∷◌, some, Text, units, arith, length, map,
}
use easy_webdav.Floats.{percent}
use easy_webdav.Floats.FixedPoint.{thousandths}
use easy_webdav.Api.Problem.{Problem, other, ok, err, problem_message}
use easy_webdav.Api.Url.{Encoders, endpoint, with_user}
use easy_webdav.Upload.State.{
  UploadState, uploading, start_upload, mark_chunk, mark_retry, finish_upload, chunk_count,
  chunk_size, max_attempts, upload_concurrency,
}
use easy_webdav.Upload.Chunks.{part, slice, chunk_part, chunk_indices, flatten-chunk_part}
use easy_webdav.Upload.Workers.{
  step, run_events, start_workers, start_worker, initial, accept, reject, all_returned, Event,
}
use easy_webdav.Upload.Workers.Weights.{busy, holds, total, count}
use easy_webdav.Upload.Workers.Progress.{Awaits, AreAnswers}
use easy_webdav.Upload.Session.{
  UploadTask, Handlers, Answers, rename, create_task, run_upload, transfer, restart, settle,
  fail_task, returned_url, thrown, waiting, upload_url,
}
use easy_webdav.Upload.Session.Delivery.{
  IsSized, IsDelivered, started, run_upload-delivers, run_upload-throws,
}
use easy_webdav.Upload.Session.Limits.{
  transfer_bounds, transfer_exclusive, run_upload_ends, run_upload_succeeds,
}
use easy_webdav.Upload.Session.Flicker.{Flickers, failures, transfer-Flickers, third_first}
use easy_webdav.Upload.Progress.{progress, progress-run_upload, bar_percent}

abbrev plain : Encoders
plain = record { component = λ s. s; form = λ s. s }

-- Three full chunks and ten bytes.
abbrev big_task : UploadTask
big_task =
    create_task (record { name = units "big.bin"; size = 3 * chunk_size + 10 }) (units "big.bin")
      rename

abbrev into_incoming : Handlers
into_incoming = record { user_id = units "7"; directory = units "incoming" }

abbrev offline : Problem
offline = other (units "offline")

-- The four chunks arrive in order, the second one at its second attempt.
abbrev one_retry : List Event
one_retry = (0, ok tt) ∷ (1, err offline) ∷ (1, ok tt) ∷ (2, ok tt) ∷ (0, ok tt) ∷ []

abbrev smooth : List Event
smooth = (0, ok tt) ∷ (1, ok tt) ∷ (2, ok tt) ∷ (0, ok tt) ∷ []

-- The first chunk fails three times; the other chunks under way arrive.
abbrev three_failures : List Event
three_failures =
    (0, err offline) ∷ (0, err offline) ∷ (0, err offline) ∷ (1, ok tt) ∷ (2, ok tt) ∷ []

abbrev good_answers : List Event → Answers
good_answers events = record { session = ok (units "s1"); chunks = events; completion = ok tt }

abbrev session_address : Text
session_address = units "/api/v1/uploads/s1?user_id=7"

completes :
    (run_upload plain (units "/") big_task into_incoming (good_answers one_retry)).1
    ≡ returned_url session_address
unfolding run_upload transfer step run_events start_workers start_worker initial accept reject
    all_returned settle fail_task restart start_upload mark_chunk mark_retry finish_upload
    create_task chunk_indices chunk_count endpoint with_user
completes = refl

big_task-IsSized : IsSized big_task
unfolding create_task start_upload
big_task-IsSized = refl

run_upload-delivers_example :
    IsDelivered big_task
      (run_upload plain (units "/") big_task into_incoming (good_answers one_retry)).0.state
      (transfer big_task one_retry)
run_upload-delivers_example =
    run_upload-delivers plain (units "/") big_task into_incoming (good_answers one_retry)
      session_address big_task-IsSized completes

gives_up :
    (run_upload plain (units "/") big_task into_incoming (good_answers three_failures)).1
    ≡ thrown offline
unfolding run_upload transfer step run_events start_workers start_worker initial accept reject
    all_returned settle fail_task restart start_upload mark_chunk mark_retry finish_upload
    create_task chunk_indices chunk_count
gives_up = refl

run_upload-throws_example :
    (run_upload plain (units "/") big_task into_incoming (good_answers three_failures)).0.error
    ≡ some (units "offline")
unfolding problem_message
run_upload-throws_example =
    (run_upload-throws plain (units "/") big_task into_incoming (good_answers three_failures)
      offline gives_up).1

transfer_bounds_example :
    (total busy (transfer big_task one_retry).workers ≤ upload_concurrency)
    × ((transfer big_task one_retry).state.completed
        ≡ length (transfer big_task one_retry).accepted)
    × ((transfer big_task one_retry).state.completed ≤ chunk_count big_task.file.size)
transfer_bounds_example = transfer_bounds big_task one_retry big_task-IsSized

transfer_exclusive_example :
    count 1 (transfer big_task one_retry).accepted
      + count 1 (transfer big_task one_retry).dropped
      + total (holds 1) (transfer big_task one_retry).workers
      + count 1 (transfer big_task one_retry).queue
    ≡ 1
unfolding create_task chunk_count
transfer_exclusive_example = transfer_exclusive big_task one_retry big_task-IsSized 1

one_retry-AreAnswers : AreAnswers (started big_task) one_retry
unfolding step start_workers start_worker initial accept reject restart start_upload create_task
    chunk_indices chunk_count
one_retry-AreAnswers =
    ((0, 1, refl), ((1, 1, refl), ((1, 2, refl), ((2, 1, refl), ((3, 1, refl), tt)))))

run_upload_ends_example :
    (length one_retry ≤ max_attempts * chunk_count big_task.file.size)
    × ((run_upload plain (units "/") big_task into_incoming (good_answers one_retry)).1 ≡ waiting
        → (slot : ℕ) × Awaits (transfer big_task one_retry) slot)
run_upload_ends_example =
    run_upload_ends plain (units "/") big_task into_incoming (good_answers one_retry)
      big_task-IsSized one_retry-AreAnswers

smooth-AreAnswers : AreAnswers (started big_task) smooth
unfolding step start_workers start_worker initial accept reject restart start_upload create_task
    chunk_indices chunk_count
smooth-AreAnswers = ((0, 1, refl), ((1, 1, refl), ((2, 1, refl), ((3, 1, refl), tt))))

run_upload_succeeds_example :
    (run_upload plain (units "/") big_task into_incoming (good_answers smooth)).1
    ≡ returned_url (endpoint (units "/") (upload_url plain (units "s1") (units "7")))
unfolding create_task chunk_count
run_upload_succeeds_example =
    run_upload_succeeds plain (units "/") big_task into_incoming (good_answers smooth) (units "s1")
      big_task-IsSized refl refl smooth-AreAnswers tt refl

transfer-Flickers_example : Flickers 1 (transfer big_task (failures 2 0 1 offline offline offline))
unfolding create_task chunk_count
transfer-Flickers_example =
    transfer-Flickers big_task 2 0 1 1 offline offline offline (omega arith) third_first
      (omega arith)

flatten-chunk_part_example : flatten (map (chunk_part (1 ∷ 2 ∷ [])) (chunk_indices 2)) ≡ 1 ∷ 2 ∷ []
flatten-chunk_part_example = flatten-chunk_part (1 ∷ 2 ∷ [])

three_parts :
    map (part 2 (1 ∷ 2 ∷ 3 ∷ 4 ∷ 5 ∷ [])) (0 ∷ 1 ∷ 2 ∷ [])
    ≡ (1 ∷ 2 ∷ []) ∷ (3 ∷ 4 ∷ []) ∷ (5 ∷ []) ∷ []
unfolding part slice
three_parts = refl

abbrev half_way : UploadState
half_way = record { status = uploading; completed = 2; total = 4; attempts = 0 }

half_way_percent : progress thousandths half_way ≡ 50
unfolding progress percent
half_way_percent = refl

progress-run_upload_example :
    let state =
      (run_upload plain (units "/") big_task into_incoming (good_answers one_retry)).0.state in
    (bar_percent thousandths state ≡ 100) × (progress thousandths state ≡ 100)
unfolding create_task
progress-run_upload_example =
    progress-run_upload thousandths plain (units "/") big_task into_incoming
      (good_answers one_retry) session_address big_task-IsSized (omega arith) completes

-- The fourth chunk waits until one of the three workers is free.
within_task : 3 < chunk_count big_task.file.size
unfolding chunk_count create_task
within_task = omega arith

transfer-Lives_example :
    Lives Stage.queued (stage_of 3 (transfer big_task ((0, ok tt) ∷ [])))
    × Lives
        (stage_of 3 (transfer big_task ((0, ok tt) ∷ [])))
        (stage_of 3 (transfer big_task ((0, ok tt) ∷ (0, ok tt) ∷ [])))
transfer-Lives_example =
    transfer-Lives big_task ((0, ok tt) ∷ []) ((0, ok tt) ∷ []) 3 big_task-IsSized within_task

stages :
    (stage_of 3 (transfer big_task []) ≡ Stage.queued)
    × (stage_of 3 (transfer big_task ((0, ok tt) ∷ [])) ≡ under_way)
    × (stage_of 3 (transfer big_task ((0, ok tt) ∷ (0, ok tt) ∷ [])) ≡ done)
unfolding stage_of transfer step run_events start_workers start_worker initial accept reject restart
    start_upload create_task chunk_indices chunk_count
stages = (refl, refl, refl)
