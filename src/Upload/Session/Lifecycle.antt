-- ===== src/Upload/Session/Lifecycle.antt =====
-- The life of one chunk, which the workers of web/src/uploader.ts refine.
use easy_webdav.Prelude.{
  ℕ, zero, suc, ◌+◌, ◌≤◌, ◌<◌, ◌≡◌, refl, ap, sym, ◌∙◌, Bool, true, false, List, [], ◌∷◌, ◌++◌, ltb,
  if◌then◌else◌, arith, range_from, ◌==◌, Bool-cases, min, length, leb, inl, inr, subst,
}
use easy_webdav.Api.Problem.{Problem}
use easy_webdav.Upload.State.{chunk_count, max_attempts, upload_concurrency}
use easy_webdav.Upload.Workers.{
  sending, returned, Run, Event, start_worker, start_workers, accept, reject, step, run_events,
  initial,
}
use easy_webdav.Upload.Workers.Weights.{count, holds, total, total-set, count-next_chunk}
use easy_webdav.Upload.Workers.Invariant.{Inv, step_cases, step-Inv}
use easy_webdav.Upload.Session.{UploadTask, transfer, chunk_indices, restart}
use easy_webdav.Upload.Session.Delivery.{
  IsSized, transfer-Inv, count-range, started, started-task-Inv,
}

-- Where a chunk stands; it is muddled if it is in two places, or twice in one.
pub data Stage : Type 0 where
  absent queued under_way done given_up muddled : Stage

-- The steps that a chunk may take: it is taken up once, and then it is done or given up.
abbrev pub moves : Stage → Stage → Bool
moves absent absent = true
moves queued queued = true
moves queued under_way = true
moves under_way under_way = true
moves under_way done = true
moves under_way given_up = true
moves done done = true
moves given_up given_up = true
moves _ _ = false

pub data Lives : Stage → Stage → Type 0 where
  rests : {stage : Stage} → Lives stage stage
  goes :
      {first second third : Stage}
      → Lives first second
      → moves second third ≡ true
      → Lives first third

-- Where a chunk stands that has been accepted, given up, is being sent and is queued so many times.
abbrev stage : ℕ → ℕ → ℕ → ℕ → Stage
stage accepted dropped held left =
    if ltb 1 (accepted + dropped + held + left)
    then muddled
    else if ltb 0 accepted
    then done
    else if ltb 0 dropped
    then given_up
    else if ltb 0 held
    then under_way
    else if ltb 0 left
    then queued
    else absent

-- The abstraction of a run.
unfoldable pub stage_of : ℕ → Run → Stage
stage_of c run =
    stage (count c run.accepted) (count c run.dropped) (total (holds c) run.workers)
      (count c run.queue)

stage-moves :
    (a d h q a' d' h' q' n : ℕ)
    → a + d + h + q ≡ n
    → a' + d' + h' + q' ≡ n
    → n ≤ 1
    → a ≤ a'
    → d ≤ d'
    → a' + d' ≤ a + d + h
    → q' ≤ q
    → moves (stage a d h q) (stage a' d' h' q') ≡ true
stage-moves a d h q a' d' h' q' n s s' b p p' m k = ground arith

-- What a step can do to the counts of a chunk.
abbrev Grows : ℕ → Run → Run → Type 0
Grows c r r' =
    (count c r.accepted ≤ count c r'.accepted)
    × (count c r.dropped ≤ count c r'.dropped)
    × (count c r'.accepted + count c r'.dropped
        ≤ count c r.accepted + count c r.dropped + total (holds c) r.workers)
    × (count c r'.queue ≤ count c r.queue)

reject-Grows :
    (c : ℕ) (r : Run) (slot index attempt : ℕ) (problem : Problem)
    → (if index == c then 1 else 0) ≤ total (holds c) r.workers
    → Grows c r (reject r slot index attempt problem)
unfolding reject
reject-Grows c r slot index attempt problem held = elim (Bool-cases (leb max_attempts attempt)) [
  | inl last ↦ rw (last, reject) (omega arith, omega arith, omega arith, omega arith)
  | inr more ↦ rw (more, reject) (omega arith, omega arith, omega arith, omega arith)
]

step-Grows : (c : ℕ) (r : Run) (event : Event) → Grows c r (step r event)
unfolding accept
step-Grows c r event =
    step_cases (Grows c r) r event (omega arith, omega arith, omega arith, omega arith)
      (λ index attempt e.
        let held = total-set (holds c) r.workers event.0 (sending index attempt) returned e in
        (
          omega arith,
          omega arith,
          omega (arith, held),
          omega (arith, count-next_chunk c r.failure r.queue),
        ))
      (λ index attempt problem e.
        let held = total-set (holds c) r.workers event.0 (sending index attempt) returned e in
        reject-Grows c r event.0 index attempt problem (omega (arith, held)))

count-range-le : (c n : ℕ) → count c (range_from 0 n) ≤ 1
count-range-le c n = ground (arith, count-range c n)

step-moves :
    {n : ℕ} (c : ℕ) (r : Run) (event : Event)
    → Inv n r
    → moves (stage_of c r) (stage_of c (step r event)) ≡ true
unfolding stage_of
step-moves {n} c r event v =
    let grows = step-Grows c r event in
    stage-moves _ _ _ _ _ _ _ _ (count c (range_from 0 n)) (v.once c) ((step-Inv r event v).once c)
      (count-range-le c n) grows.0 grows.1 grows.2 grows.3

run_events-Lives :
    {n : ℕ} {first : Stage} (c : ℕ) (r : Run) (events : List Event)
    → Inv n r
    → Lives first (stage_of c r)
    → Lives first (stage_of c (run_events r events))
unfolding run_events
run_events-Lives c r [] v life = life
run_events-Lives c r (event ∷ events) v life =
    run_events-Lives c (step r event) events (step-Inv r event v)
      (goes life (step-moves c r event v))

start_workers-kept :
    (k : ℕ) (r : Run)
    → ((start_workers k r).accepted ≡ r.accepted) × ((start_workers k r).dropped ≡ r.dropped)
unfolding start_workers start_worker
start_workers-kept zero r = (refl, refl)
start_workers-kept (suc k) r = start_workers-kept k (start_worker r)

stage-fresh :
    (a d h q : ℕ) → a ≡ 0 → d ≡ 0 → a + d + h + q ≡ 1 → moves queued (stage a d h q) ≡ true
stage-fresh a d h q e f s = ground arith

started-moves :
    (task : UploadTask) (c : ℕ)
    → IsSized task
    → c < chunk_count task.file.size
    → moves queued (stage_of c (started task)) ≡ true
unfolding stage_of initial
started-moves task c sized within =
    let kept =
      start_workers-kept (min upload_concurrency (length (chunk_indices task.file.size)))
        (initial (restart task.state) (chunk_indices task.file.size)) in
    stage-fresh _ _ _ _ (ap (count c) kept.0) (ap (count c) kept.1) (
      (started-task-Inv task sized).once c
      ∙ ground (arith, count-range c (chunk_count task.file.size)))

run_events-append :
    (r : Run) (events more : List Event)
    → run_events r (events ++ more) ≡ run_events (run_events r events) more
unfolding run_events
run_events-append r [] more = refl
run_events-append r (event ∷ events) more = run_events-append (step r event) events more

-- Each chunk of the file lives the life of a chunk, whatever the answers are and in whichever order they
-- come: it waits, is taken up once, and from there is done or given up, and it is never in two places, such
-- as accepted and queued again; and wherever it stands after some answers, it goes on from there with the
-- answers that follow.
pub transfer-Lives :
    (task : UploadTask) (events more : List Event) (c : ℕ)
    → IsSized task
    → c < chunk_count task.file.size
    → Lives queued (stage_of c (transfer task events))
      × Lives (stage_of c (transfer task events)) (stage_of c (transfer task (events ++ more)))
unfolding transfer
transfer-Lives task events more c sized within = (
  run_events-Lives c (started task) events (started-task-Inv task sized)
      (goes rests (started-moves task c sized within)),
  subst (λ run. Lives (stage_of c (transfer task events)) (stage_of c run))
      (sym (run_events-append (started task) events more))
      (run_events-Lives c (transfer task events) more (transfer-Inv task events sized) rests),
)
