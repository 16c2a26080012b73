-- ===== src/Upload/Workers/Progress.antt =====
-- The workers of web/src/uploader.ts come to an end: each answer uses up one of the attempts left.
use easy_webdav.Prelude.{
  ℕ, zero, suc, ◌+◌, ◌*◌, ◌≤◌, ◌≡◌, refl, false, List, [], ◌∷◌, some, arith, length, get_elem?,
  Bool-cases, leb, length-append, inl, ◌∙◌, inr,
}
use easy_webdav.Api.Problem.{Problem, ok, err}
use easy_webdav.Upload.State.{max_attempts}
use easy_webdav.Upload.Workers.{
  Worker, sending, returned, Run, Event, next_chunk, start_worker, start_workers, accept, reject,
  step, run_events, all_returned,
}
use easy_webdav.Upload.Workers.Weights.{
  tries, total, total-append, total-set, All-get, length-set-worker, length-next_chunk,
  tries-next_chunk,
}
use easy_webdav.Upload.Workers.Invariant.{Inv, step_cases, step-Inv}

-- The requests that a run may still make, those under way included.
abbrev pub budget : Run → ℕ
budget r = max_attempts * length r.queue + total tries r.workers

-- The position holds a worker that awaits an answer.
abbrev pub Awaits : Run → ℕ → Type 0
Awaits r slot =
    (index : ℕ) × (attempt : ℕ) × (get_elem? r.workers slot ≡ some (sending index attempt))

-- Every event answers a request that is under way.
abbrev pub AreAnswers : Run → List Event → Type 0
AreAnswers r [] = Unit
AreAnswers r (event ∷ events) = Awaits r event.0 × AreAnswers (step r event) events

accept-budget :
    (r : Run) (slot index attempt : ℕ)
    → attempt ≤ max_attempts
    → get_elem? r.workers slot ≡ some (sending index attempt)
    → suc (budget (accept r slot index)) ≤ budget r
unfolding accept
accept-budget r slot index attempt h e = omega (
  arith,
  total-set tries r.workers slot _ (next_chunk r.failure r.queue).1 e,
  length-next_chunk r.failure r.queue,
  tries-next_chunk r.failure r.queue,
)

reject-budget :
    (r : Run) (slot index attempt : ℕ) (problem : Problem)
    → attempt ≤ max_attempts
    → get_elem? r.workers slot ≡ some (sending index attempt)
    → suc (budget (reject r slot index attempt problem)) ≤ budget r
unfolding reject
reject-budget r slot index attempt problem h e = elim (Bool-cases (leb max_attempts attempt)) [
  | inl last ↦ rw (last, reject) (omega (arith, total-set tries r.workers slot _ returned e))
  | inr more ↦
      rw (more, reject)
        (omega (arith, total-set tries r.workers slot _ (sending index (attempt + 1)) e))
]

step-budget :
    {n : ℕ} (r : Run) (event : Event)
    → Inv n r
    → Awaits r event.0
    → suc (budget (step r event)) ≤ budget r
unfolding step
step-budget r (slot, ok _) v (index, attempt, e) =
    rw (e, step) (accept-budget r slot index attempt (All-get r.workers slot _ v.trying e).1 e)
step-budget r (slot, err problem) v (index, attempt, e) =
    rw (e, step)
      (reject-budget r slot index attempt problem (All-get r.workers slot _ v.trying e).1 e)

pub length-answers-le-budget :
    {n : ℕ} (r : Run) (events : List Event)
    → Inv n r
    → AreAnswers r events
    → length events ≤ budget r
length-answers-le-budget r [] v h = omega arith
length-answers-le-budget r (event ∷ events) v (h, hs) = omega (
  arith,
  step-budget r event v h,
  length-answers-le-budget (step r event) events (step-Inv r event v) hs,
)

budget-start_worker : (r : Run) → budget (start_worker r) ≡ budget r
unfolding start_worker
budget-start_worker r = omega (
  arith,
  total-append tries r.workers (next_chunk r.failure r.queue).1,
  length-next_chunk r.failure r.queue,
  tries-next_chunk r.failure r.queue,
)

pub budget-start_workers : (k : ℕ) (r : Run) → budget (start_workers k r) ≡ budget r
unfolding start_workers
budget-start_workers zero r = refl
budget-start_workers (suc k) r = budget-start_workers k (start_worker r) ∙ budget-start_worker r

pub length-start_workers :
    (k : ℕ) (r : Run) → length (start_workers k r).workers ≡ length r.workers + k
unfolding start_workers start_worker
length-start_workers zero r = omega arith
length-start_workers (suc k) r = omega (
  arith,
  length-start_workers k (start_worker r),
  length-append r.workers ((next_chunk r.failure r.queue).1 ∷ []),
)

accept-length : (r : Run) (slot index : ℕ) → length (accept r slot index).workers ≡ length r.workers
unfolding accept
accept-length r slot index = length-set-worker r.workers slot _

reject-length :
    (r : Run) (slot index attempt : ℕ) (problem : Problem)
    → length (reject r slot index attempt problem).workers ≡ length r.workers
unfolding reject
reject-length r slot index attempt problem = elim (Bool-cases (leb max_attempts attempt)) [
  | inl last ↦ rw (last, reject) (length-set-worker r.workers slot _)
  | inr more ↦ rw (more, reject) (length-set-worker r.workers slot _)
]

pub length-run_events :
    (r : Run) (events : List Event) → length (run_events r events).workers ≡ length r.workers
unfolding run_events
length-run_events r [] = refl
length-run_events r (event ∷ events) =
    length-run_events (step r event) events
    ∙ step_cases (λ s. length s.workers ≡ length r.workers) r event refl
        (λ index attempt e. accept-length r event.0 index)
        (λ index attempt problem e. reject-length r event.0 index attempt problem)

-- While a worker has not returned, some request awaits its answer.
pub awaits_of_not_returned :
    (ws : List Worker)
    → all_returned ws ≡ false
    → (slot index attempt : ℕ) × (get_elem? ws slot ≡ some (sending index attempt))
unfolding all_returned
awaits_of_not_returned [] h = cc
awaits_of_not_returned (returned ∷ ws) h =
    let (slot, index, attempt, e) = awaits_of_not_returned ws h in (suc slot, index, attempt, e)
awaits_of_not_returned (sending index attempt ∷ ws) h = (0, index, attempt, refl)
