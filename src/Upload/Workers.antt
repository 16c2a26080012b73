-- ===== src/Upload/Workers.antt =====
-- web/src/uploader.ts, lines 50-74: the workers that share the queue of chunks. The source runs on
-- one thread, so what a worker does between two awaited requests is one step; the order in which the
-- requests are answered is the list of events that a run is given.
pub mod Weights
pub mod Invariant
pub mod Progress
use easy_webdav.Prelude.{
  ℕ, zero, suc, ◌+◌, Bool, true, false, List, [], ◌∷◌, ◌++◌, Option, none, some, leb, if◌then◌else◌,
  get_elem?, set,
}
use easy_webdav.Api.Problem.{Problem, Reply, ok, err}
use easy_webdav.Upload.State.{UploadState, mark_chunk, mark_retry, max_attempts}

-- A worker awaits the answer to the request for a chunk, at an attempt, or has returned.
pub data Worker : Type 0 where
  sending : ℕ → ℕ → Worker
  returned : Worker

-- What the workers share. `accepted` and `dropped` record the chunks whose request was answered
-- well, and those that were given up; the source keeps no such lists.
pub record Run : Type 0 where
  pub state : UploadState
  pub queue : List ℕ
  pub failure : Option Problem
  pub workers : List Worker
  pub accepted : List ℕ
  pub dropped : List ℕ

-- The answer to the request of the worker at a position.
abbrev pub Event : Type 0
Event = ℕ × Reply (Unit {0})

-- `while (queue.length && !failure) { const index = queue.shift() … attempt = 1 …`
pub next_chunk : Option Problem → List ℕ → List ℕ × Worker
next_chunk (some problem) queue = (queue, returned)
next_chunk none [] = ([], returned)
next_chunk none (index ∷ queue) = (queue, sending index 1)

-- A call of `worker`, up to its first request.
unfoldable pub start_worker : Run → Run
unfolding next_chunk
start_worker run =
    let next = next_chunk run.failure run.queue in
    record run { queue = next.0; workers = run.workers ++ next.1 ∷ [] }

-- `Array.from({ length }, worker)`.
unfoldable pub start_workers : ℕ → Run → Run
start_workers zero run = run
start_workers (suc n) run = start_workers n (start_worker run)

-- The request succeeds: `markChunk`, `break`, and the head of the loop again.
unfoldable pub accept : Run → ℕ → ℕ → Run
unfolding next_chunk
accept run slot index =
    let next = next_chunk run.failure run.queue in
    record run {
      state = mark_chunk run.state;
      queue = next.0;
      workers = set run.workers slot next.1;
      accepted = index ∷ run.accepted;
    }

-- The request fails: `markRetry`, and another attempt unless it was the last one.
unfoldable pub reject : Run → ℕ → ℕ → ℕ → Problem → Run
reject run slot index attempt problem =
    if leb max_attempts attempt
    then record run {
      state = mark_retry run.state;
      failure = some problem;
      workers = set run.workers slot returned;
      dropped = index ∷ run.dropped;
    }
    else record run {
      state = mark_retry run.state;
      workers = set run.workers slot (sending index (attempt + 1));
    }

-- An event for a worker that awaits nothing does not arise, and changes nothing.
unfoldable pub step : Run → Event → Run
step run (slot, reply) = elim (get_elem? run.workers slot) [
  | none ↦ run
  | some returned ↦ run
  | some (sending index attempt) ↦ elim reply [
    | ok _ ↦ accept run slot index
    | err problem ↦ reject run slot index attempt problem
  ]
]

unfoldable pub run_events : Run → List Event → Run
run_events run [] = run
run_events run (event ∷ events) = run_events (step run event) events

-- The state before the workers start: `const queue = [...chunks]`, `failure = null`.
unfoldable pub initial : UploadState → List ℕ → Run
initial state chunks = record {
  state = state;
  queue = chunks;
  failure = none;
  workers = [];
  accepted = [];
  dropped = [];
}

-- `Promise.all` is settled when every worker has returned.
unfoldable pub all_returned : List Worker → Bool
all_returned [] = true
all_returned (returned ∷ workers) = all_returned workers
all_returned (sending _ _ ∷ workers) = false
