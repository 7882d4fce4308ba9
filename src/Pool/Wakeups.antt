-- ===== src/Pool/Wakeups.antt =====
-- No wake-up of the pool is lost.
use my_unp.Prelude.{
  ℕ, ◌<◌, ◌≡◌, List, ◌∷◌, length, length-set, get_or, set, get_or-set_keeps, ◌⊎◌, arith,
}
use my_unp.Pool.{Thread, no_thread, serving, Pool, take_turn, place_at, Awake}
use my_unp.Pool.Added.{queued, waiting}

abbrev AwakeThread : Thread → Type 0
AwakeThread t = Awake t.place

-- A thread that does not sleep.
abbrev pub SomeAwake : Pool → Type 0
SomeAwake p = (i : ℕ) × (i < length p.tptr) × Awake (place_at i p)

abbrev Watched : Pool → Type 0
Watched p = (queued p ≡ 0) ⊎ SomeAwake p

SomeAwake-set :
    (ts : List Thread) (i j : ℕ) (t : Thread)
    → Awake t.place
    → j < length ts
    → Awake (get_or ts j no_thread).place
    → (j < length (set ts i t)) × Awake (get_or (set ts i t) j no_thread).place
SomeAwake-set ts i j t w h a =
    (omega (arith, length-set ts i t), get_or-set_keeps AwakeThread ts i j t no_thread w a)

-- What a thread that locks the mutex does while a connection waits: it serves the oldest.
pub record TakesOldest (p : Pool) (i : ℕ) : Type 0 where
  pub oldest : ℕ
  pub in_front : waiting p ≡ oldest ∷ waiting (take_turn i p)
  pub served : place_at i (take_turn i p) ≡ serving oldest
