-- ===== src/Upload/Session/Limits.antt =====
-- How many requests `runUpload` (web/src/uploader.ts) makes, and that it comes to an end.
use easy_webdav.Prelude.{
  ℕ, zero, suc, ◌+◌, ◌*◌, ◌≤◌, ◌≡◌, refl, ap, true, List, [], ◌∷◌, none, some, arith, length,
  get_elem?, Bool-cases, ltb, if◌then◌else◌, Text, inl, inr, min, ◌∙◌, ◌≢◌,
}
use easy_webdav.Api.Problem.{ok, err, Reply, Reply-cases}
use easy_webdav.Api.Url.{Encoders, endpoint}
use easy_webdav.Upload.State.{UploadState, chunk_count, max_attempts, upload_concurrency}
use easy_webdav.Upload.Chunks.{chunk_indices}
use easy_webdav.Upload.Workers.{
  Worker, sending, returned, Run, Event, run_events, step, start_workers, start_worker, initial,
  all_returned, accept,
}
use easy_webdav.Upload.Workers.Weights.{count, busy, holds, total}
use easy_webdav.Upload.Workers.Progress.{
  Awaits, AreAnswers, budget, length-answers-le-budget, budget-start_workers,
  awaits_of_not_returned,
}
use easy_webdav.Upload.Session.{
  UploadTask, Handlers, Answers, returned_url, waiting, restart, transfer, run_upload, fail_task,
  settle, upload_url,
}
use easy_webdav.Upload.Session.Delivery.{
  IsSized, started, started-task-Inv, transfer-Inv, length-transfer, length-chunk_indices,
  count-range,
}

total-busy-le-length : (ws : List Worker) → total busy ws ≤ length ws
total-busy-le-length [] = omega arith
total-busy-le-length (sending index attempt ∷ ws) = omega (arith, total-busy-le-length ws)
total-busy-le-length (returned ∷ ws) = omega (arith, total-busy-le-length ws)

module _ (task : UploadTask) (events : List Event) (sized : IsSized task) where
  -- After any answers at most three requests are under way, the counter of the state is the number
  -- of accepted chunks, and it does not exceed the number of the file's chunks.
  pub transfer_bounds :
      (total busy (transfer task events).workers ≤ upload_concurrency)
      × ((transfer task events).state.completed ≡ length (transfer task events).accepted)
      × ((transfer task events).state.completed ≤ chunk_count task.file.size)
  transfer_bounds =
      let v = transfer-Inv task events sized in
      (
        omega (
          arith,
          total-busy-le-length (transfer task events).workers,
          length-transfer task events,
        ),
        v.counted,
        omega (arith, v.counted, v.conserved),
      )

  -- Wherever a run stands, each chunk index is accepted, given up, being sent or queued at most once
  -- in all: an accepted chunk is not sent again, and no chunk is sent by two workers at a time.
  pub transfer_exclusive :
      (c : ℕ)
      → count c (transfer task events).accepted
          + count c (transfer task events).dropped
          + total (holds c) (transfer task events).workers
          + count c (transfer task events).queue
        ≡ (if ltb c (chunk_count task.file.size) then 1 else 0)
  transfer_exclusive c =
      (transfer-Inv task events sized).once c ∙ count-range c (chunk_count task.file.size)

budget-initial :
    (state : UploadState) (chunks : List ℕ)
    → budget (initial state chunks) ≡ max_attempts * length chunks
unfolding initial
budget-initial state chunks = omega arith

settle-ne-waiting :
    (encoders : Encoders) (base : Text) (task : UploadTask) (handlers : Handlers) (id : Text)
    (completion : Reply (Unit {0})) (run : Run)
    → (settle encoders base task handlers id completion run).1 ≢ waiting
unfolding settle fail_task
settle-ne-waiting encoders base task handlers id completion run e = ground arith

-- A call that waits has a worker whose request is under way.
waiting-Awaits :
    (encoders : Encoders) (base : Text) (task : UploadTask) (handlers : Handlers)
    (answers : Answers)
    → (run_upload encoders base task handlers answers).1 ≡ waiting
    → (slot : ℕ) × Awaits (transfer task answers.chunks) slot
unfolding run_upload fail_task
waiting-Awaits encoders base task handlers answers e = elim (Reply-cases answers.session) [
  | inl (id, good) ↦ elim (Bool-cases (all_returned (transfer task answers.chunks).workers)) [
    | inl all ↦ absurd (
        settle-ne-waiting encoders base task handlers id answers.completion
          (transfer task answers.chunks) (rw (good, run_upload, all) at e))
    | inr some_wait ↦
        let (slot, index, attempt, at_slot) = awaits_of_not_returned _ some_wait in
        (slot, (index, attempt, at_slot))
  ]
  | inr (p, bad) ↦ cc (rw (bad, run_upload) at e)
]

module _ (encoders : Encoders) (base : Text) (task : UploadTask) (handlers : Handlers)
    (answers : Answers) where
  -- If every event answers a request that is under way, there are at most three for each chunk of the
  -- file; and as long as the call waits there is a worker whose request can be answered.
  pub run_upload_ends :
      IsSized task
      → AreAnswers (started task) answers.chunks
      → (length answers.chunks ≤ max_attempts * chunk_count task.file.size)
        × ((run_upload encoders base task handlers answers).1 ≡ waiting
            → (slot : ℕ) × Awaits (transfer task answers.chunks) slot)
  run_upload_ends sized are = (
    omega (
      arith,
      length-answers-le-budget (started task) answers.chunks (started-task-Inv task sized) are,
      budget-start_workers (min upload_concurrency (length (chunk_indices task.file.size)))
          (initial (restart task.state) (chunk_indices task.file.size)),
      budget-initial (restart task.state) (chunk_indices task.file.size),
      length-chunk_indices task.file.size,
    ),
    waiting-Awaits encoders base task handlers answers,
  )

step-accept :
    (r : Run) (slot index attempt : ℕ)
    → get_elem? r.workers slot ≡ some (sending index attempt)
    → step r (slot, ok tt) ≡ accept r slot index
unfolding step
step-accept r slot index attempt e = rw (e, step)

-- Every request succeeds.
abbrev pub AreAccepted : List Event → Type 0
AreAccepted [] = Unit
AreAccepted ((slot, ok _) ∷ events) = AreAccepted events
AreAccepted ((slot, err problem) ∷ events) = ⊥

accepted_run :
    (r : Run) (events : List Event)
    → AreAnswers r events
    → AreAccepted events
    → r.failure ≡ none
    → ((run_events r events).failure ≡ none)
      × (length (run_events r events).accepted ≡ length r.accepted + length events)
unfolding run_events accept
accepted_run r [] h k clean = (clean, omega arith)
accepted_run r ((slot, ok _) ∷ events) ((index, attempt, e), hs) k clean =
    let same : step r (slot, ok tt) ≡ accept r slot index = step-accept r slot index attempt e in
    let (still, more) = accepted_run (step r (slot, ok tt)) events hs k (rw same clean) in
    (still, omega (arith, more, ap (λ s. length s.accepted) same))
accepted_run r ((slot, err problem) ∷ events) h k clean = absurd k

start_workers_fresh :
    (k : ℕ) (r : Run)
    → ((start_workers k r).failure ≡ r.failure) × ((start_workers k r).accepted ≡ r.accepted)
unfolding start_workers start_worker
start_workers_fresh zero r = (refl, refl)
start_workers_fresh (suc k) r = start_workers_fresh k (start_worker r)

all_returned_of_busy : (ws : List Worker) → total busy ws ≡ 0 → all_returned ws ≡ true
unfolding all_returned
all_returned_of_busy [] h = refl
all_returned_of_busy (returned ∷ ws) h = all_returned_of_busy ws (omega arith)
all_returned_of_busy (sending index attempt ∷ ws) h = absurd (omega arith)

module _ (encoders : Encoders) (base : Text) (task : UploadTask) (handlers : Handlers)
    (answers : Answers) where
  -- When the session is created, every chunk is answered well at its first request and the completion
  -- succeeds, the call returns the address of the upload: it neither waits nor throws.
  pub run_upload_succeeds :
      (id : Text)
      → IsSized task
      → answers.session ≡ ok id
      → answers.completion ≡ ok tt
      → AreAnswers (started task) answers.chunks
      → AreAccepted answers.chunks
      → length answers.chunks ≡ chunk_count task.file.size
      → (run_upload encoders base task handlers answers).1
        ≡ returned_url (endpoint base (upload_url encoders id handlers.user_id))
  unfolding run_upload settle transfer initial
  run_upload_succeeds id sized session completion are good enough =
      let (fresh, none_yet) =
        start_workers_fresh (min upload_concurrency (length (chunk_indices task.file.size)))
          (initial (restart task.state) (chunk_indices task.file.size)) in
      let (clean, accepted) = accepted_run (started task) answers.chunks are good fresh in
      let v = transfer-Inv task answers.chunks sized in
      let all : all_returned (transfer task answers.chunks).workers ≡ true =
        all_returned_of_busy (transfer task answers.chunks).workers
          (omega (arith, v.conserved, accepted, enough, ap length none_yet)) in
      rw (session, run_upload, all, clean, completion)
