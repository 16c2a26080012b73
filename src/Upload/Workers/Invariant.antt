-- ===== src/Upload/Workers/Invariant.antt =====
-- What the workers of web/src/uploader.ts keep true between two answers.
use easy_webdav.Prelude.{
  ℕ, zero, suc, ◌+◌, ◌<◌, ◌≡◌, refl, List, [], ◌∷◌, Option, none, some, arith, length, get_elem?,
  All, All-append, range_from, length-range_from, Bool-cases, ◌⊎◌, inl, inr, leb,
}
use easy_webdav.Api.Problem.{Problem, ok, err}
use easy_webdav.Upload.State.{UploadState, mark_chunk, mark_retry, max_attempts}
use easy_webdav.Upload.Workers.{
  Worker, sending, returned, Run, Event, next_chunk, start_worker, start_workers, accept, reject,
  step, run_events, initial,
}
use easy_webdav.Upload.Workers.Weights.{
  count, busy, idle, holds, IsTrying, total, total-append, total-set, All-set, All-get,
  count-next_chunk, length-next_chunk, idle-next_chunk, next_chunk-IsTrying,
}

-- An upload of `n` chunks under way.
pub record Inv (n : ℕ) (r : Run) : Type 0 where
  pub sized : r.state.total ≡ n
  pub counted : r.state.completed ≡ length r.accepted
  pub conserved : length r.accepted + length r.dropped + total busy r.workers + length r.queue ≡ n
  pub once :
      (c : ℕ)
      → count c r.accepted + count c r.dropped + total (holds c) r.workers + count c r.queue
        ≡ count c (range_from 0 n)
  pub lossless : r.failure ≡ none → length r.dropped ≡ 0
  pub working : r.failure ≡ none → 0 < length r.queue → total idle r.workers ≡ 0
  pub trying : All IsTrying r.workers

initial-Inv :
    (state : UploadState)
    → state.completed ≡ 0
    → Inv state.total (initial state (range_from 0 state.total))
unfolding initial
initial-Inv state h = record {
  sized = refl;
  counted = h;
  conserved = omega (arith, length-range_from 0 state.total);
  once = λ c. omega arith;
  lossless = λ _. refl;
  working = λ _ _. refl;
  trying = tt;
}

start_worker-Inv : {n : ℕ} (r : Run) → Inv n r → Inv n (start_worker r)
unfolding start_worker
start_worker-Inv {n} r v = record {
  sized = v.sized;
  counted = v.counted;
  conserved = omega (
    arith,
    v.conserved,
    total-append busy r.workers (next_chunk r.failure r.queue).1,
    length-next_chunk r.failure r.queue,
  );
  once = λ c. omega (
    arith,
    v.once c,
    total-append (holds c) r.workers (next_chunk r.failure r.queue).1,
    count-next_chunk c r.failure r.queue,
  );
  lossless = v.lossless;
  working = λ e h. omega (
    arith,
    v.working e,
    total-append idle r.workers (next_chunk r.failure r.queue).1,
    length-next_chunk r.failure r.queue,
    idle-next_chunk r.failure r.queue e h,
  );
  trying = All-append IsTrying r.workers _ v.trying (next_chunk-IsTrying r.failure r.queue, tt);
}

accept-Inv :
    {n : ℕ} (r : Run) (slot index attempt : ℕ)
    → get_elem? r.workers slot ≡ some (sending index attempt)
    → Inv n r
    → Inv n (accept r slot index)
unfolding accept mark_chunk
accept-Inv {n} r slot index attempt e v = record {
  sized = v.sized;
  counted =
      omega (arith, v.sized, v.counted, v.conserved, total-set busy r.workers slot _ returned e);
  conserved = omega (
    arith,
    v.conserved,
    total-set busy r.workers slot _ (next_chunk r.failure r.queue).1 e,
    length-next_chunk r.failure r.queue,
  );
  once = λ c. omega (
    arith,
    v.once c,
    total-set (holds c) r.workers slot _ (next_chunk r.failure r.queue).1 e,
    count-next_chunk c r.failure r.queue,
  );
  lossless = v.lossless;
  working = λ f h. omega (
    arith,
    v.working f,
    total-set idle r.workers slot _ (next_chunk r.failure r.queue).1 e,
    length-next_chunk r.failure r.queue,
    idle-next_chunk r.failure r.queue f h,
  );
  trying = All-set r.workers slot _ v.trying (next_chunk-IsTrying r.failure r.queue);
}

reject-Inv :
    {n : ℕ} (r : Run) (slot index attempt : ℕ) (problem : Problem)
    → get_elem? r.workers slot ≡ some (sending index attempt)
    → Inv n r
    → Inv n (reject r slot index attempt problem)
unfolding reject mark_retry
reject-Inv {n} r slot index attempt problem e v = elim (Bool-cases (leb max_attempts attempt)) [
  | inl last ↦
      rw (last, reject)
        (record {
          sized = v.sized;
          counted = v.counted;
          conserved = omega (arith, v.conserved, total-set busy r.workers slot _ returned e);
          once = λ c. omega (arith, v.once c, total-set (holds c) r.workers slot _ returned e);
          lossless = λ f. cc;
          working = λ f h. cc;
          trying = All-set r.workers slot _ v.trying tt;
        })
  | inr more ↦
      rw (more, reject)
        (record {
          sized = v.sized;
          counted = v.counted;
          conserved =
              omega (
                arith,
                v.conserved,
                total-set busy r.workers slot _ (sending index (attempt + 1)) e,
              );
          once = λ c. omega (
            arith,
            v.once c,
            total-set (holds c) r.workers slot _ (sending index (attempt + 1)) e,
          );
          lossless = v.lossless;
          working = λ f h. omega (
            arith,
            v.working f h,
            total-set idle r.workers slot _ (sending index (attempt + 1)) e,
          );
          trying =
              All-set r.workers slot _ v.trying
                (omega (arith, All-get r.workers slot _ v.trying e), ground arith);
        })
]

Worker-cases :
    (o : Option Worker)
    → ((o ≡ none) ⊎ (o ≡ some returned))
      ⊎ ((index attempt : ℕ) × (o ≡ some (sending index attempt)))
Worker-cases none = inl (inl refl)
Worker-cases (some returned) = inl (inr refl)
Worker-cases (some (sending index attempt)) = inr (index, attempt, refl)

-- The cases of a step, with the request that is answered.
pub step_cases {ℓ} :
    (P : Run → Type ℓ) (r : Run) (event : Event)
    → P r
    → ((index attempt : ℕ)
        → get_elem? r.workers event.0 ≡ some (sending index attempt)
        → P (accept r event.0 index))
    → ((index attempt : ℕ) (problem : Problem)
        → get_elem? r.workers event.0 ≡ some (sending index attempt)
        → P (reject r event.0 index attempt problem))
    → P (step r event)
unfolding step
step_cases P r (slot, ok _) same accepted rejected =
    elim (Worker-cases (get_elem? r.workers slot)) [
      | inl (inl e) ↦ rw (e, step) same
      | inl (inr e) ↦ rw (e, step) same
      | inr (index, attempt, e) ↦ rw (e, step) (accepted index attempt e)
    ]
step_cases P r (slot, err problem) same accepted rejected =
    elim (Worker-cases (get_elem? r.workers slot)) [
      | inl (inl e) ↦ rw (e, step) same
      | inl (inr e) ↦ rw (e, step) same
      | inr (index, attempt, e) ↦ rw (e, step) (rejected index attempt problem e)
    ]

pub step-Inv : {n : ℕ} (r : Run) (event : Event) → Inv n r → Inv n (step r event)
step-Inv {n} r event v =
    step_cases (Inv n) r event v (λ index attempt e. accept-Inv r event.0 index attempt e v)
      λ index attempt problem e. reject-Inv r event.0 index attempt problem e v

pub run_events-Inv : {n : ℕ} (r : Run) (events : List Event) → Inv n r → Inv n (run_events r events)
unfolding run_events
run_events-Inv r [] v = v
run_events-Inv r (event ∷ events) v = run_events-Inv (step r event) events (step-Inv r event v)

start_workers-Inv : {n : ℕ} (k : ℕ) (r : Run) → Inv n r → Inv n (start_workers k r)
unfolding start_workers
start_workers-Inv zero r v = v
start_workers-Inv (suc k) r v = start_workers-Inv k (start_worker r) (start_worker-Inv r v)

-- It holds when the workers have started.
pub started-Inv :
    (k : ℕ) (state : UploadState)
    → state.completed ≡ 0
    → Inv state.total (start_workers k (initial state (range_from 0 state.total)))
started-Inv k state h = start_workers-Inv k _ (initial-Inv state h)
