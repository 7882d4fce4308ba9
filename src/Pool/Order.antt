-- ===== src/Pool/Order.antt =====
-- The pool serves the connections in the order of Accept, each once.
use my_unp.Prelude.{
  ℕ, suc, ◌+◌, ◌-◌, ◌<◌, ◌≡◌, ◌↔◌, refl, ◌∙◌, sym, ap, subst, [], ◌∷◌, ◌++◌, append_assoc, ◌⊎◌, inl,
  inr, Bool, true, false, none, some, ◌==◌, leb, if◌then◌else◌, length, length-append, get_or,
  sum_by-set, slots, length-slots, arith,
}
use my_unp.Pool.{
  added, taking, maxncli, no_thread, top, sleeping, Pool, next_slot, store_conn, move, serves,
  take_turn, Step, accepts_and_signals, accepts, locks, wakes, closes, Reach, begin, later,
}
use my_unp.Pool.Added.{
  queued, waiting, served_by, Ordered, start-Ordered, move-Ordered, around-next_slot, added-Ordered,
}

-- `store_conn` on both its branches.
pub store_conn-cases :
    (connfd : ℕ) (p : Pool)
    → ((next_slot p.iput == p.iget) ≡ true) × (store_conn connfd p ≡ none)
      ⊎ ((next_slot p.iput == p.iget) ≡ false) × (store_conn connfd p ≡ some (added connfd p))
unfolding store_conn
store_conn-cases connfd p = go (next_slot p.iput == p.iget)
  where
    go :
        (b : Bool)
        → (b ≡ true) × ((if b then none else some (added connfd p)) ≡ none)
          ⊎ (b ≡ false) × ((if b then none else some (added connfd p)) ≡ some (added connfd p))
    go true = inl (refl, refl)
    go false = inr (refl, refl)

store_conn-Ordered :
    (connfd : ℕ) (p q : Pool) → Ordered p → store_conn connfd p ≡ some q → Ordered q
store_conn-Ordered connfd p q v e = elim (store_conn-cases connfd p) [
  | inl (_, none_put) ↦ absurd cc
  | inr (room, put_added) ↦
      subst Ordered (some_eq (added connfd p) q (sym put_added ∙ e)) (added-Ordered connfd p v room)
]
  where
    some_eq : (a b : Pool) → some a ≡ some b → a ≡ b
    some_eq a b h = cc

taken_one :
    (iget iput : ℕ)
    → iget < 32
    → iput < 32
    → (iget == iput) ≡ false
    → (if leb iget iput then iput - iget else iput + 32 - iget)
      ≡ suc
          (if leb (next_slot iget) iput then iput - next_slot iget else iput + 32 - next_slot iget)
taken_one iget iput h k e = ground arith

pub waiting-taking :
    (i : ℕ) (p : Pool)
    → Ordered p
    → (p.iget == p.iput) ≡ false
    → waiting p ≡ get_or p.clifd p.iget 0 ∷ waiting (taking i p)
waiting-taking i p v e =
    ap (slots maxncli 0 p.clifd p.iget) (taken_one p.iget p.iput v.iget_in v.iput_in e)
    ∙ ap (λ h. get_or p.clifd p.iget 0 ∷ slots maxncli 0 p.clifd h (queued (taking i p)))
        (around-next_slot p.iget v.iget_in)

taking-Ordered :
    (i : ℕ) (p : Pool)
    → i < length p.tptr
    → Ordered p
    → (p.iget == p.iput) ≡ false
    → Ordered (taking i p)
taking-Ordered i p h v e = record {
  ring_there = v.ring_there;
  iget_in = ground (arith, v.iget_in);
  iput_in = v.iput_in;
  in_order =
      v.in_order
      ∙ ap (λ xs. p.taken ++ xs) (waiting-taking i p v e)
      ∙ sym (append_assoc p.taken (get_or p.clifd p.iget 0 ∷ []) (waiting (taking i p)));
  counted = omega (
    arith,
    v.counted,
    length-append p.taken (get_or p.clifd p.iget 0 ∷ []),
    sum_by-set served_by p.tptr i (serves (get_or p.clifd p.iget 0) (get_or p.tptr i no_thread))
        no_thread h,
  );
}

take_turn-Ordered : (i : ℕ) (p : Pool) → i < length p.tptr → Ordered p → Ordered (take_turn i p)
unfolding take_turn
take_turn-Ordered i p h v = go (p.iget == p.iput) refl
  where
    go : (b : Bool) → (p.iget == p.iput) ≡ b → Ordered (if b then move i sleeping p else taking i p)
    go true e = move-Ordered i sleeping p h v
    go false e = taking-Ordered i p h v e

pub store_conn-tptr : (connfd : ℕ) (p q : Pool) → store_conn connfd p ≡ some q → q.tptr ≡ p.tptr
store_conn-tptr connfd p q e = elim (store_conn-cases connfd p) [
  | inl (_, none_put) ↦ absurd cc
  | inr (_, put_added) ↦ same_threads (sym put_added ∙ e)
]
  where
    same_threads : some (added connfd p) ≡ some q → q.tptr ≡ p.tptr
    same_threads h = cc

Step-Ordered : (p q : Pool) → Ordered p → Step p q → Ordered q
Step-Ordered p q v (accepts_and_signals connfd i q' e h s) =
    move-Ordered i top q' (rw (store_conn-tptr connfd p q' e) h)
      (store_conn-Ordered connfd p q' v e)
Step-Ordered p q v (accepts connfd q' e all) = store_conn-Ordered connfd p q v e
Step-Ordered p q v (locks i h s) = take_turn-Ordered i p h v
Step-Ordered p q v (wakes i h s) = move-Ordered i top p h v
Step-Ordered p q v (closes i connfd h s) = move-Ordered i top p h v

-- In every state that the main thread and the pool reach, in any order of their steps and of the
-- wake-ups: the connections that Accept returned are, in that order, those that threads have taken
-- and then those in the ring, so that each is taken once and the oldest first; the two indices are
-- in range; and the threads' counts come to the number of connections taken.
pub Reach-Ordered : {nthreads : ℕ} {p : Pool} → Reach nthreads p → Ordered p
Reach-Ordered {nthreads} begin = start-Ordered nthreads
Reach-Ordered (later {p} {q} r s) = Step-Ordered p q (Reach-Ordered r) s

full_iff :
    (iget iput : ℕ)
    → iget < 32
    → iput < 32
    → ((next_slot iput == iget) ≡ true)
      ↔ ((if leb iget iput then iput - iget else iput + 32 - iget) ≡ 31)
full_iff iget iput h k = ground arith

-- In every state that is reached, main ends at err_quit on one more connection just when 31 already
-- wait in the ring, one less than it has slots.
pub store_conn-overflows :
    {nthreads : ℕ} {p : Pool} (connfd : ℕ)
    → Reach nthreads p
    → (store_conn connfd p ≡ none) ↔ (length (waiting p) ≡ 31)
store_conn-overflows {nthreads} {p} connfd r =
    let v = Reach-Ordered r in
    let many = length-slots maxncli 0 p.clifd p.iget (queued p) in
    let full = full_iff p.iget p.iput v.iget_in v.iput_in in
    (λ e. many ∙ full.0 (quits e), λ e. quitting (full.1 (sym many ∙ e)))
  where
    quits : store_conn connfd p ≡ none → (next_slot p.iput == p.iget) ≡ true
    quits e = elim (store_conn-cases connfd p) [
      | inl (full, _) ↦ full
      | inr (_, put_added) ↦ absurd cc
    ]

    quitting : (next_slot p.iput == p.iget) ≡ true → store_conn connfd p ≡ none
    quitting e = elim (store_conn-cases connfd p) [ inl (_, q) ↦ q | inr (room, _) ↦ absurd cc ]
