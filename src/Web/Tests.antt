-- ===== src/Web/Tests.antt =====
-- Two files, both read at a time: a run of main and the threads into the deadlock.
use my_unp.Prelude.{ℕ, ◌≡◌, refl, subst, List, [], ◌∷◌, Option, none, some, arith}
use my_unp.Web.{
  Web, scanning, done, joined, marked, terminated, start, find_file, main_at, main_step, thread_at,
  thread_step,
}
use my_unp.Web.Counters.{Inv}
use my_unp.Web.Counters.Interleaving.{
  main_steps, thread_steps, Reach, begin, later, Reach-start-Inv,
}
use my_unp.Web.Deadlock.{Stuck, Reach-Stuck}

-- A step of main (`none`) or of the thread of a file.
abbrev next : Option ℕ → Option Web → Option Web
next a none = none
next none (some w) = main_step 2 w
next (some i) (some w) = thread_step i w

abbrev follow : List (Option ℕ) → Option Web → Option Web
follow [] o = o
follow (a ∷ bs) o = follow bs (next a o)

-- The first thread ends and counts itself; the second has set F_DONE when main has joined the first.
abbrev schedule : List (Option ℕ)
schedule = none ∷ none ∷ none ∷ none ∷ some 0 ∷ some 0 ∷ some 0 ∷ some 1 ∷ some 1 ∷ none ∷ none ∷ []

abbrev deadlock : Web
deadlock = record {
  files =
      record { flags = joined; thread = terminated }
      ∷ record { flags = done; thread = marked }
      ∷ [];
  nconn = 1;
  nlefttoconn = 0;
  nlefttoread = 1;
  ndone = 0;
  place = scanning 1;
}

deadlock_run : follow schedule (some (start 2)) ≡ some deadlock
unfolding start find_file main_at thread_at
deadlock_run = refl

Reach-next :
    (a : Option ℕ) (o : Option Web) (w : Web)
    → ((x : Web) → o ≡ some x → Reach 2 (start 2) x)
    → next a o ≡ some w
    → Reach 2 (start 2) w
Reach-next a none w r e = absurd cc
Reach-next none (some x) w r e = later (r x refl) (main_steps w e)
Reach-next (some i) (some x) w r e = later (r x refl) (thread_steps i w e)

Reach-follow :
    (xs : List (Option ℕ)) (o : Option Web) (w : Web)
    → ((x : Web) → o ≡ some x → Reach 2 (start 2) x)
    → follow xs o ≡ some w
    → Reach 2 (start 2) w
Reach-follow [] o w r e = r w e
Reach-follow (a ∷ xs) o w r e = Reach-follow xs (next a o) w (λ x. Reach-next a o x r) e

deadlock_reached : Reach 2 (start 2) deadlock
deadlock_reached = Reach-follow schedule (some (start 2)) deadlock at_start deadlock_run
  where
    at_start : (x : Web) → some (start 2) ≡ some x → Reach 2 (start 2) x
    at_start x e = subst (Reach 2 (start 2)) same begin
      where
        same : start 2 ≡ x
        same = cc

Reach-start-Inv_example : Inv 2 deadlock
Reach-start-Inv_example = Reach-start-Inv 2 2 deadlock_reached

Reach-Stuck_example : (main_step 2 deadlock ≡ none) × Stuck 1 deadlock
Reach-Stuck_example =
    Reach-Stuck 2 1 begin (record { here = refl; listed = omega arith; flagged = refl })
