-- ===== src/Pool.antt =====
-- origin-src/unpv13e/server/serv08.c, pthread08.c: the main thread accepts, and a pool of threads
-- takes the connections out of a ring under a mutex and a condition variable.
pub mod Added
pub mod Order
pub mod Wakeups
mod Tests
use my_unp.Prelude.{
  ℕ, zero, suc, ◌+◌, ◌≡◌, ◌<◌, ◌⊎◌, List, [], ◌∷◌, ◌++◌, Bool, Option, none, some, ◌==◌,
  if◌then◌else◌, length, get_or, set, replicate,
}

abbrev pub maxncli : ℕ
maxncli = 32

-- Where a thread of the pool is: before it locks the mutex, in Pthread_cond_wait, or in web_child.
pub data Place : Type 0 where
  top : Place
  sleeping : Place
  serving : ℕ → Place

pub record Thread : Type 0 where
  pub place : Place
  pub thread_count : ℕ

abbrev pub no_thread : Thread
no_thread = record { place = top; thread_count = 0 }

-- The globals, with the connections that Accept has returned and those that threads have taken.
pub record Pool : Type 0 where
  pub clifd : List ℕ
  pub iget : ℕ
  pub iput : ℕ
  pub tptr : List Thread
  pub accepted : List ℕ
  pub taken : List ℕ

-- main up to its loop.
unfoldable pub start : ℕ → Pool
start nthreads = record {
  clifd = replicate maxncli 0;
  iget = 0;
  iput = 0;
  tptr = replicate nthreads no_thread;
  accepted = [];
  taken = [];
}

-- `if (++i == MAXNCLI) i = 0`
abbrev pub next_slot : ℕ → ℕ
next_slot i = if i + 1 == maxncli then 0 else i + 1

-- A connection stored in the ring, at iput.
abbrev pub added : ℕ → Pool → Pool
added connfd p = record p {
  clifd = set p.clifd p.iput connfd;
  iput = next_slot p.iput;
  accepted = p.accepted ++ (connfd ∷ []);
}

-- What main does with a connection under the mutex, up to the signal; none is err_quit.
unfoldable pub store_conn : ℕ → Pool → Option Pool
store_conn connfd p = if next_slot p.iput == p.iget then none else some (added connfd p)

abbrev pub moved : Place → Thread → Thread
moved q t = record t { place = q }

abbrev pub place_at : ℕ → Pool → Place
place_at i p = (get_or p.tptr i no_thread).place

-- Thread `i` comes to be at a place.
unfoldable pub move : ℕ → Place → Pool → Pool
move i q p = record p { tptr = set p.tptr i (moved q (get_or p.tptr i no_thread)) }

-- Thread `i` has taken a connection, and counts it.
abbrev pub serves : ℕ → Thread → Thread
serves connfd t = record { place = serving connfd; thread_count = t.thread_count + 1 }

-- Thread `i` takes the connection at iget.
abbrev pub taking : ℕ → Pool → Pool
taking i p = record p {
  iget = next_slot p.iget;
  tptr = set p.tptr i (serves (get_or p.clifd p.iget 0) (get_or p.tptr i no_thread));
  taken = p.taken ++ (get_or p.clifd p.iget 0 ∷ []);
}

-- Thread `i` holds the mutex at the test of `while (iget == iput)`: it waits, or takes a connection.
unfoldable pub take_turn : ℕ → Pool → Pool
take_turn i p = if p.iget == p.iput then move i sleeping p else taking i p

abbrev pub Awake : Place → Type 0
Awake top = Unit
Awake sleeping = ⊥
Awake (serving connfd) = Unit

-- What the scheduler may do next_slot. Pthread_cond_signal wakes a thread that sleeps, if any does; a
-- thread may also wake without a signal; and web_child and Close come to their end.
pub data Step (p : Pool) : Pool → Type 0 where
  accepts_and_signals :
      (connfd i : ℕ) (q : Pool)
      → store_conn connfd p ≡ some q
      → i < length p.tptr
      → place_at i p ≡ sleeping
      → Step p (move i top q)
  accepts :
      (connfd : ℕ) (q : Pool)
      → store_conn connfd p ≡ some q
      → ((i : ℕ) → i < length p.tptr → Awake (place_at i p))
      → Step p q
  locks : (i : ℕ) → i < length p.tptr → place_at i p ≡ top → Step p (take_turn i p)
  wakes : (i : ℕ) → i < length p.tptr → place_at i p ≡ sleeping → Step p (move i top p)
  closes :
      (i connfd : ℕ) → i < length p.tptr → place_at i p ≡ serving connfd → Step p (move i top p)

pub data Reach (nthreads : ℕ) : Pool → Type 0 where
  begin : Reach nthreads (start nthreads)
  later : {p q : Pool} → Reach nthreads p → Step p q → Reach nthreads q
