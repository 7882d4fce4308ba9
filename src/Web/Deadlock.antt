-- ===== src/Web/Deadlock.antt =====
-- web03.c: a thread sets F_DONE before it takes the mutex. Main, in the loop that joins, may see the
-- flag with the mutex in its own hands.
use my_unp.Prelude.{
  ℕ, ◌<◌, ◌≡◌, ◌≢◌, refl, ◌∙◌, sym, ap, subst, true, ltb, Option, none, some, length, get_or, set,
  get_or-set_ne, length-set, arith, if◌then◌else◌,
}
use my_unp.Web.{
  done, Thread, absent, getting, receiving, marked, terminated, File, Place, scanning, Web,
  untouched, main_at, main_step, join, holds_mutex, thread_at,
}
use my_unp.Web.Counters.Interleaving.{main_steps, thread_steps, Reach, begin, later}

-- Main is to join file `i`, whose thread has set F_DONE and waits for the mutex.
pub record Stuck (i : ℕ) (w : Web) : Type 0 where
  pub here : w.place ≡ scanning i
  pub listed : i < length w.files
  pub flagged : get_or w.files i untouched ≡ record { flags = done; thread = marked }

abbrev pub StuckAfter : ℕ → Option Web → Type 0
StuckAfter i none = Unit
StuckAfter i (some w) = Stuck i w

main_waits : (maxnconn i : ℕ) (w : Web) → Stuck i w → main_step maxnconn w ≡ none
unfolding main_at
main_waits maxnconn i w s =
    ap (λ p. main_at maxnconn p w) s.here
    ∙ ap
        (λ b.
          if b
          then join i ((get_or w.files i untouched).flags) ((get_or w.files i untouched).thread) w
          else some (record w { place = Place.outer }))
        in_table
    ∙ ap (λ (f : File). join i f.flags f.thread w) s.flagged
  where
    in_table : ltb i (length w.files) ≡ true
    in_table = ground (arith, s.listed)

-- Another thread's file changes.
other-Stuck :
    (i j ndone : ℕ) (f : File) (w : Web)
    → Stuck i w
    → j ≢ i
    → Stuck i (record w { files = set w.files j f; ndone = ndone })
other-Stuck i j ndone f w s ne = record {
  here = s.here;
  listed = omega (arith, s.listed, length-set w.files j f);
  flagged = get_or-set_ne w.files j i f untouched ne ∙ s.flagged;
}

-- The thread of file `i` waits for the mutex, so one that does not is another's.
elsewhere :
    (i j : ℕ) (t : Thread) (w : Web)
    → Stuck i w
    → (get_or w.files j untouched).thread ≡ t
    → t ≢ marked
    → j ≢ i
elsewhere i j t w s at ne e = ne (
    sym at
    ∙ ap (λ k. (get_or w.files k untouched).thread) e
    ∙ ap (λ (f : File). f.thread) s.flagged)

thread_at-Stuck :
    (i j : ℕ) (t : Thread) (w : Web)
    → Stuck i w
    → (get_or w.files j untouched).thread ≡ t
    → StuckAfter i (thread_at j t w)
unfolding thread_at
thread_at-Stuck i j absent w s at = tt
thread_at-Stuck i j getting w s at =
    other-Stuck i j w.ndone _ w s (elsewhere i j getting w s at (λ e. cc))
thread_at-Stuck i j receiving w s at =
    other-Stuck i j w.ndone _ w s (elsewhere i j receiving w s at (λ e. cc))
thread_at-Stuck i j marked w s at = rw (ap holds_mutex s.here) tt
thread_at-Stuck i j terminated w s at = tt

-- A deadlock, at every file: where main comes to a file whose thread has set F_DONE but has not yet
-- entered the mutex, main has no step, and whatever the other threads do, it stays so for ever.
pub Reach-Stuck :
    (maxnconn i : ℕ) {w w' : Web}
    → Reach maxnconn w w'
    → Stuck i w
    → (main_step maxnconn w' ≡ none) × Stuck i w'
Reach-Stuck maxnconn i {w} r s = (main_waits maxnconn i _ (go r), go r)
  where
    mismatch : {y : Web} {o : Option Web} → o ≡ none → o ≡ some y → ⊥
    mismatch p q = cc

    go : {x : Web} → Reach maxnconn w x → Stuck i x
    go begin = s
    go (later {x} q (main_steps y e)) = absurd (mismatch (main_waits maxnconn i x (go q)) e)
    go (later {x} q (thread_steps j y e)) =
        subst (StuckAfter i) e (thread_at-Stuck i j _ x (go q) refl)
