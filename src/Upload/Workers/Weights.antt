-- ===== src/Upload/Workers/Weights.antt =====
-- Sums over the workers, by which the proofs about web/src/uploader.ts account for the chunks.
use easy_webdav.Prelude.{
  ℕ, zero, suc, ◌+◌, ◌-◌, ◌*◌, ◌≤◌, ◌<◌, ◌≡◌, refl, ap, subst, true, List, [], ◌∷◌, ◌++◌, Option,
  none, some, arith, ◌==◌, if◌then◌else◌, length, get_elem?, set, All,
}
use mathlib.Core.Option.{some-injective}
use easy_webdav.Api.Problem.{Problem}
use easy_webdav.Upload.State.{max_attempts}
use easy_webdav.Upload.Workers.{Worker, sending, returned, next_chunk, all_returned}

abbrev pub count : ℕ → List ℕ → ℕ
count c [] = 0
count c (x ∷ xs) = (if x == c then 1 else 0) + count c xs

abbrev pub busy : Worker → ℕ
busy (sending index attempt) = 1
busy returned = 0

abbrev pub idle : Worker → ℕ
idle (sending index attempt) = 0
idle returned = 1

-- Whether the worker holds the chunk.
abbrev pub holds : ℕ → Worker → ℕ
holds c (sending index attempt) = if index == c then 1 else 0
holds c returned = 0

-- The requests that the worker may still make for its chunk, the one under way included.
abbrev pub tries : Worker → ℕ
tries (sending index attempt) = suc max_attempts - attempt
tries returned = 0

abbrev pub IsTrying : Worker → Type 0
IsTrying (sending index attempt) = (1 ≤ attempt) × (attempt ≤ max_attempts)
IsTrying returned = Unit

abbrev pub total : (Worker → ℕ) → List Worker → ℕ
total f [] = 0
total f (w ∷ ws) = f w + total f ws

pub total-append :
    (f : Worker → ℕ) (ws : List Worker) (w : Worker) → total f (ws ++ w ∷ []) ≡ total f ws + f w
total-append f [] w = omega arith
total-append f (v ∷ ws) w = omega (arith, total-append f ws w)

pub total-set :
    (f : Worker → ℕ) (ws : List Worker) (k : ℕ) (w w' : Worker)
    → get_elem? ws k ≡ some w
    → total f (set ws k w') + f w ≡ total f ws + f w'
total-set f [] k w w' h = cc
total-set f (v ∷ ws) zero w w' h = ground arith
total-set f (v ∷ ws) (suc k) w w' h = omega (arith, total-set f ws k w w' h)

pub length-set-worker : (ws : List Worker) (k : ℕ) (w : Worker) → length (set ws k w) ≡ length ws
length-set-worker [] k w = refl
length-set-worker (v ∷ ws) zero w = refl
length-set-worker (v ∷ ws) (suc k) w = ap suc (length-set-worker ws k w)

pub All-set :
    (ws : List Worker) (k : ℕ) (w : Worker)
    → All IsTrying ws
    → IsTrying w
    → All IsTrying (set ws k w)
All-set [] k w h p = tt
All-set (v ∷ ws) zero w (q, h) p = (p, h)
All-set (v ∷ ws) (suc k) w (q, h) p = (q, All-set ws k w h p)

pub All-get :
    (ws : List Worker) (k : ℕ) (w : Worker) → All IsTrying ws → get_elem? ws k ≡ some w → IsTrying w
All-get [] k w h e = cc
All-get (v ∷ ws) zero w (q, h) e = subst IsTrying (some-injective _ _ e) q
All-get (v ∷ ws) (suc k) w (q, h) e = All-get ws k w h e

pub count-next_chunk :
    (c : ℕ) (failure : Option Problem) (queue : List ℕ)
    → count c (next_chunk failure queue).0 + holds c (next_chunk failure queue).1 ≡ count c queue
unfolding next_chunk
count-next_chunk c (some problem) queue = omega arith
count-next_chunk c none [] = omega arith
count-next_chunk c none (index ∷ queue) = omega arith

pub length-next_chunk :
    (failure : Option Problem) (queue : List ℕ)
    → length (next_chunk failure queue).0 + busy (next_chunk failure queue).1 ≡ length queue
unfolding next_chunk
length-next_chunk (some problem) queue = omega arith
length-next_chunk none [] = omega arith
length-next_chunk none (index ∷ queue) = omega arith

pub idle-next_chunk :
    (failure : Option Problem) (queue : List ℕ)
    → failure ≡ none
    → 0 < length (next_chunk failure queue).0
    → idle (next_chunk failure queue).1 ≡ 0
unfolding next_chunk
idle-next_chunk (some problem) queue e h = cc
idle-next_chunk none [] e h = absurd (omega arith)
idle-next_chunk none (index ∷ queue) e h = refl

pub tries-next_chunk :
    (failure : Option Problem) (queue : List ℕ)
    → tries (next_chunk failure queue).1 ≡ max_attempts * busy (next_chunk failure queue).1
unfolding next_chunk
tries-next_chunk (some problem) queue = refl
tries-next_chunk none [] = refl
tries-next_chunk none (index ∷ queue) = refl

pub next_chunk-IsTrying :
    (failure : Option Problem) (queue : List ℕ) → IsTrying (next_chunk failure queue).1
unfolding next_chunk
next_chunk-IsTrying (some problem) queue = tt
next_chunk-IsTrying none [] = tt
next_chunk-IsTrying none (index ∷ queue) = omega arith

pub total-idle : (ws : List Worker) → all_returned ws ≡ true → total idle ws ≡ length ws
unfolding all_returned
total-idle [] h = refl
total-idle (returned ∷ ws) h = omega (arith, total-idle ws h)
total-idle (sending index attempt ∷ ws) h = cc

pub total-returned :
    (f : Worker → ℕ) (ws : List Worker) → f returned ≡ 0 → all_returned ws ≡ true → total f ws ≡ 0
unfolding all_returned
total-returned f [] z h = refl
total-returned f (returned ∷ ws) z h = omega (arith, total-returned f ws z h)
total-returned f (sending index attempt ∷ ws) z h = cc
