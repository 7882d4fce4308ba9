-- ===== src/Pool/Added.antt =====
-- What is in the ring of the pool, and how a connection extends it.
use my_unp.Prelude.{
  ℕ, zero, suc, ◌+◌, ◌-◌, ◌<◌, ◌≡◌, refl, ◌∙◌, sym, ap, List, [], ◌∷◌, ◌++◌, append_assoc, false,
  ◌==◌, leb, if◌then◌else◌, length, length-set, get_or, set, replicate, sum_by, sum_by-set, around,
  slots, slots-set, arith,
}
use my_unp.Pool.{added, maxncli, Thread, no_thread, Place, Pool, start, next_slot, move, moved}

-- How many connections wait in the ring, and which, the oldest first.
abbrev pub queued : Pool → ℕ
queued p = if leb p.iget p.iput then p.iput - p.iget else p.iput + maxncli - p.iget

abbrev pub waiting : Pool → List ℕ
waiting p = slots maxncli 0 p.clifd p.iget (queued p)

abbrev pub served_by : Thread → ℕ
served_by t = t.thread_count

-- The indices are in range; the connections accepted are those taken and behind them those that
-- wait; and the threads' counts come to the number of those taken.
pub record Ordered (p : Pool) : Type 0 where
  pub ring_there : length p.clifd ≡ maxncli
  pub iget_in : p.iget < maxncli
  pub iput_in : p.iput < maxncli
  pub in_order : p.accepted ≡ p.taken ++ waiting p
  pub counted : sum_by served_by p.tptr ≡ length p.taken

sum_by-replicate : (n : ℕ) → sum_by served_by (replicate n no_thread) ≡ 0
sum_by-replicate zero = refl
sum_by-replicate (suc n) = omega (arith, sum_by-replicate n)

pub start-Ordered : (n : ℕ) → Ordered (start n)
unfolding start
start-Ordered n = record {
  ring_there = refl;
  iget_in = omega arith;
  iput_in = omega arith;
  in_order = refl;
  counted = sum_by-replicate n;
}

pub move-Ordered :
    (i : ℕ) (q : Place) (p : Pool) → i < length p.tptr → Ordered p → Ordered (move i q p)
unfolding move
move-Ordered i q p h v = record {
  ring_there = v.ring_there;
  iget_in = v.iget_in;
  iput_in = v.iput_in;
  in_order = v.in_order;
  counted = omega (
    arith,
    v.counted,
    sum_by-set served_by p.tptr i (moved q (get_or p.tptr i no_thread)) no_thread h,
  );
}

store_conn-queued :
    (iget iput : ℕ)
    → iget < 32
    → iput < 32
    → (next_slot iput == iget) ≡ false
    → (if leb iget (next_slot iput) then next_slot iput - iget else next_slot iput + 32 - iget)
      ≡ suc (if leb iget iput then iput - iget else iput + 32 - iget)
store_conn-queued iget iput h k e = ground arith

queued_below :
    (iget iput : ℕ)
    → iget < 32
    → iput < 32
    → (if leb iget iput then iput - iget else iput + 32 - iget) < 32
queued_below iget iput h k = ground arith

queued_behind :
    (iget iput : ℕ)
    → iget < 32
    → iput < 32
    → iput ≡ around 32 (iget + (if leb iget iput then iput - iget else iput + 32 - iget))
queued_behind iget iput h k = ground arith

pub around-next_slot : (i : ℕ) → i < 32 → around 32 (i + 1) ≡ next_slot i
around-next_slot i h = ground arith

pub added-Ordered :
    (connfd : ℕ) (p : Pool)
    → Ordered p
    → (next_slot p.iput == p.iget) ≡ false
    → Ordered (added connfd p)
added-Ordered connfd p v room = record {
  ring_there = length-set p.clifd p.iput connfd ∙ v.ring_there;
  iget_in = v.iget_in;
  iput_in = ground (arith, v.iput_in);
  in_order =
      ap (λ xs. xs ++ (connfd ∷ [])) v.in_order
      ∙ append_assoc p.taken (waiting p) (connfd ∷ [])
      ∙ ap (λ xs. p.taken ++ xs) (sym more);
  counted = v.counted;
}
  where
    more : waiting (added connfd p) ≡ waiting p ++ (connfd ∷ [])
    more =
        ap (slots maxncli 0 (set p.clifd p.iput connfd) p.iget)
          (store_conn-queued p.iget p.iput v.iget_in v.iput_in room)
        ∙ slots-set maxncli 0 p.clifd connfd (queued p) p.iget p.iput (omega (arith, v.ring_there))
            v.iget_in (queued_below p.iget p.iput v.iget_in v.iput_in)
            (queued_behind p.iget p.iput v.iget_in v.iput_in)
