-- ===== src/Pool/Tests.antt =====
-- A run of the pool, and the theorems at it.
use my_unp.Prelude.{refl, [], ◌∷◌, replicate, arith}
use my_unp.Pool.{
  top, sleeping, Pool, start, store_conn, move, take_turn, accepts_and_signals, locks, Reach, begin,
  later,
}
use my_unp.Pool.Order.{Reach-Ordered}
use my_unp.Pool.Added.{Ordered}

-- Of two threads, the first finds the ring empty and sleeps; then connection 7 comes, and wakes it.
abbrev woken : Pool
woken = record {
  clifd = 7 ∷ replicate 31 0;
  iget = 0;
  iput = 1;
  tptr = record { place = top; thread_count = 0 } ∷ record { place = top; thread_count = 0 } ∷ [];
  accepted = 7 ∷ [];
  taken = [];
}

abbrev one_sleeps : Pool
one_sleeps = record {
  clifd = replicate 32 0;
  iget = 0;
  iput = 0;
  tptr =
      record { place = sleeping; thread_count = 0 } ∷ record { place = top; thread_count = 0 } ∷ [];
  accepted = [];
  taken = [];
}

one_sleeps-Reach : Reach 2 one_sleeps
unfolding start take_turn move
one_sleeps-Reach = later begin (locks 0 (omega arith) refl)

woken-Reach : Reach 2 woken
unfolding store_conn move
woken-Reach =
    later one_sleeps-Reach
      (accepts_and_signals 7 0 (record woken { tptr = one_sleeps.tptr }) refl (omega arith) refl)

Reach-Ordered_example : Ordered woken
Reach-Ordered_example = Reach-Ordered woken-Reach
