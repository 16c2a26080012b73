-- ===== src/Upload/Session/Delivery.antt =====
-- What `runUpload` (web/src/uploader.ts) has done when it ends.
use easy_webdav.Prelude.{
  ℕ, zero, suc, ◌+◌, ◌≤◌, ◌≡◌, refl, ap, true, List, [], ◌∷◌, none, some, arith, length, Bool-cases,
  ltb, leb, if◌then◌else◌, Text, range_from, length-range_from, inl, inr, min, subst, Option-cases,
  zero-cases,
}
use easy_webdav.Api.Problem.{Problem, problem_message, ok, err, Reply, Reply-cases}
use easy_webdav.Api.Url.{Encoders}
use easy_webdav.Upload.State.{
  UploadState, complete, failed, start_upload, finish_upload, chunk_count, upload_concurrency,
}
use easy_webdav.Upload.Chunks.{chunk_indices}
use easy_webdav.Upload.Workers.{Run, Event, start_workers, initial, all_returned}
use easy_webdav.Upload.Workers.Weights.{count, busy, holds, total-idle, total-returned}
use easy_webdav.Upload.Workers.Invariant.{Inv, run_events-Inv, started-Inv}
use easy_webdav.Upload.Workers.Progress.{length-start_workers, length-run_events}
use easy_webdav.Upload.Session.{
  UploadTask, Handlers, Answers, returned_url, thrown, restart, transfer, fail_task, settle,
  run_upload,
}

count-range_from :
    (c start n : ℕ)
    → count c (range_from start n) ≡ (if leb start c then if ltb c (start + n) then 1 else 0 else 0)
count-range_from c start zero = ground arith
count-range_from c start (suc n) = ground (arith, count-range_from c (suc start) n)

pub count-range : (c n : ℕ) → count c (range_from 0 n) ≡ (if ltb c n then 1 else 0)
count-range c n = ground (arith, count-range_from c 0 n)

nil_of_length {ℓ} : {A : Type ℓ} (xs : List A) → length xs ≡ 0 → xs ≡ []
nil_of_length [] h = refl
nil_of_length (x ∷ xs) h = absurd (omega arith)

-- The task still has the number of chunks that it was created with.
abbrev pub IsSized : UploadTask → Type 0
IsSized task = task.state.total ≡ chunk_count task.file.size

-- The workers of the task before the first answer.
abbrev pub started : UploadTask → Run
started task =
    start_workers (min upload_concurrency (length (chunk_indices task.file.size)))
      (initial (restart task.state) (chunk_indices task.file.size))

pub started-task-Inv :
    (task : UploadTask) → IsSized task → Inv (chunk_count task.file.size) (started task)
unfolding restart start_upload chunk_indices
started-task-Inv task h =
    subst
      (λ n. Inv n (
        start_workers (min upload_concurrency (length (range_from 0 n)))
          (initial (restart task.state) (range_from 0 n))))
      h
      (started-Inv (min upload_concurrency (length (range_from 0 task.state.total)))
        (restart task.state) refl)

pub transfer-Inv :
    (task : UploadTask) (events : List Event)
    → IsSized task
    → Inv (chunk_count task.file.size) (transfer task events)
unfolding transfer
transfer-Inv task events h = run_events-Inv (started task) events (started-task-Inv task h)

pub length-chunk_indices : (size : ℕ) → length (chunk_indices size) ≡ chunk_count size
unfolding chunk_indices
length-chunk_indices size = length-range_from 0 (chunk_count size)

pub length-transfer :
    (task : UploadTask) (events : List Event)
    → length (transfer task events).workers ≡ min upload_concurrency (chunk_count task.file.size)
unfolding transfer initial
length-transfer task events = omega (
  arith,
  length-run_events (started task) events,
  length-start_workers (min upload_concurrency (length (chunk_indices task.file.size)))
      (initial (restart task.state) (chunk_indices task.file.size)),
  length-chunk_indices task.file.size,
)

chunk_count-pos : (size : ℕ) → 1 ≤ chunk_count size
unfolding chunk_count
chunk_count-pos size = omega arith

-- When all workers have returned and none has failed, the queue is empty.
settled_queue :
    (task : UploadTask) (events : List Event)
    → IsSized task
    → all_returned (transfer task events).workers ≡ true
    → (transfer task events).failure ≡ none
    → length (transfer task events).queue ≡ 0
settled_queue task events h all clean = elim (zero-cases (length (transfer task events).queue)) [
  | inl empty ↦ empty
  | inr more ↦ absurd (
      omega (
        arith,
        (transfer-Inv task events h).working clean more,
        total-idle (transfer task events).workers all,
        length-transfer task events,
        chunk_count-pos task.file.size,
      ))
]

-- Every chunk has then been accepted, each once.
settled_once :
    (task : UploadTask) (events : List Event)
    → IsSized task
    → all_returned (transfer task events).workers ≡ true
    → (transfer task events).failure ≡ none
    → (c : ℕ)
    → count c (transfer task events).accepted
      ≡ (if ltb c (chunk_count task.file.size) then 1 else 0)
settled_once task events h all clean c =
    let v = transfer-Inv task events h in
    let empty : (transfer task events).queue ≡ [] =
      nil_of_length _ (settled_queue task events h all clean) in
    let kept : (transfer task events).dropped ≡ [] = nil_of_length _ (v.lossless clean) in
    omega (
      arith,
      v.once c,
      total-returned (holds c) (transfer task events).workers refl all,
      ap (count c) empty,
      ap (count c) kept,
      count-range c (chunk_count task.file.size),
    )

settled_completed :
    (task : UploadTask) (events : List Event)
    → IsSized task
    → all_returned (transfer task events).workers ≡ true
    → (transfer task events).failure ≡ none
    → (transfer task events).state.completed ≡ chunk_count task.file.size
settled_completed task events h all clean =
    let v = transfer-Inv task events h in
    omega (
      arith,
      v.conserved,
      v.counted,
      v.lossless clean,
      settled_queue task events h all clean,
      total-returned busy (transfer task events).workers refl all,
    )

-- The facts about a run that went well.
abbrev pub IsDelivered : UploadTask → UploadState → Run → Type 0
IsDelivered task state run =
    (state.status ≡ complete)
    × (state.completed ≡ chunk_count task.file.size)
    × (state.total ≡ chunk_count task.file.size)
    × ((c : ℕ) → count c run.accepted ≡ (if ltb c (chunk_count task.file.size) then 1 else 0))

module _ (encoders : Encoders) (base : Text) (task : UploadTask) (handlers : Handlers) where
  settle_delivers :
      (id : Text) (completion : Reply (Unit {0})) (events : List Event) (url : Text)
      → IsSized task
      → all_returned (transfer task events).workers ≡ true
      → (settle encoders base task handlers id completion (transfer task events)).1
        ≡ returned_url url
      → IsDelivered task
          (settle encoders base task handlers id completion (transfer task events)).0.state
          (transfer task events)
  unfolding settle fail_task finish_upload
  settle_delivers id (err problem) events url h all e =
      elim (Option-cases (transfer task events).failure) [
        | inl clean ↦ cc (rw (clean, settle) at e)
        | inr (p, bad) ↦ cc (rw (bad, settle) at e)
      ]
  settle_delivers id (ok _) events url h all e =
      elim (Option-cases (transfer task events).failure) [
        | inl clean ↦
            let v = transfer-Inv task events h in
            let done = settled_completed task events h all clean in
            rw (clean, settle)
              (ground (arith, done, v.sized), done, v.sized, settled_once task events h all clean)
        | inr (p, bad) ↦ cc (rw (bad, settle) at e)
      ]

  -- When the call returns an address, the state is complete, its counter and its total stand at the number of the
  -- file's chunks, and every chunk index below that number was accepted exactly once and no other.
  pub run_upload-delivers :
      (answers : Answers) (url : Text)
      → IsSized task
      → (run_upload encoders base task handlers answers).1 ≡ returned_url url
      → IsDelivered task
          (run_upload encoders base task handlers answers).0.state
          (transfer task answers.chunks)
  unfolding run_upload fail_task
  run_upload-delivers answers url h e = elim (Reply-cases answers.session) [
    | inl (id, good) ↦ elim (Bool-cases (all_returned (transfer task answers.chunks).workers)) [
      | inl all ↦
          rw (good, run_upload, all)
            (settle_delivers id answers.completion answers.chunks url h all
              (rw (good, run_upload, all) at e))
      | inr some_wait ↦ cc (rw (good, run_upload, some_wait) at e)
    ]
    | inr (p, bad) ↦ cc (rw (bad, run_upload) at e)
  ]

  -- When the call throws a problem, the task is marked failed and shows that problem's message.
  pub run_upload-throws :
      (answers : Answers) (problem : Problem)
      → (run_upload encoders base task handlers answers).1 ≡ thrown problem
      → ((run_upload encoders base task handlers answers).0.state.status ≡ failed)
        × ((run_upload encoders base task handlers answers).0.error
            ≡ some (problem_message problem))
  unfolding run_upload settle fail_task
  run_upload-throws answers problem e = ground arith
