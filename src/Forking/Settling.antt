-- ===== src/Forking/Settling.antt =====
-- The handler of SIGCHLD comes to its end, and then all children that have ended are waited for.
use my_unp.Prelude.{
  ℕ, zero, suc, ◌+◌, ◌≡◌, refl, sym, ap, subst, List, [], ◌∷◌, true, false, if◌then◌else◌, length,
  arith,
}
use my_unp.Forking.{Server, pick, enter_handler, waited, wait_turn, Reach}
use my_unp.Forking.Reaping.{count, unforked, count-pick, Reach-Tidy}

-- sig_chld from its entry on: turns of its loop, with the zombies that waitpid chooses, until it
-- returns.
unfoldable pub sig_chld : List ℕ → Server → Server
sig_chld [] s = s
sig_chld (i ∷ is) s = let rest = sig_chld is (wait_turn i s) in if s.handling then rest else s

length-pick : (i c : ℕ) (cs : List ℕ) → length (pick i c cs).1 ≡ length cs
unfolding pick
length-pick zero c cs = refl
length-pick (suc i) c [] = refl
length-pick (suc i) c (d ∷ ds) = ap suc (length-pick i d ds)

-- The handler has returned from `s`, and the zombies are waited for.
pub record Returned (s t : Server) : Type 0 where
  pub left : t.handling ≡ false
  pub none_left : t.zombies ≡ []
  pub counted : (x : ℕ) → count x t.reaped ≡ count x s.reaped + count x s.zombies
  pub point_kept : t.point ≡ s.point
  pub running_kept : t.running ≡ s.running
  pub accepted_kept : t.accepted ≡ s.accepted

-- Once the handler has returned, it does no more.
returned_stays : (is : List ℕ) (s : Server) → s.handling ≡ false → sig_chld is s ≡ s
unfolding sig_chld
returned_stays [] s e = refl
returned_stays (i ∷ is) s e = rw e refl

sig_chld-Returned :
    (is : List ℕ) (s : Server)
    → s.handling ≡ true
    → length is ≡ suc (length s.zombies)
    → Returned s (sig_chld is s)
unfolding sig_chld wait_turn count
sig_chld-Returned [] s inside e = absurd (omega (arith, e))
sig_chld-Returned (i ∷ is) s inside e =
    subst (λ b. Returned s (if b then sig_chld is (wait_turn i s) else s)) (sym inside)
      (go s.zombies refl (λ t. sig_chld-Returned is t))
  where
    turn : List ℕ → Server
    turn zombies = elim zombies [
      | [] ↦ record s { handling = false }
      | c ∷ cs ↦ waited (pick i c cs) s
    ]

    go :
        (zombies : List ℕ)
        → s.zombies ≡ zombies
        → ((t : Server)
            → t.handling ≡ true
            → length is ≡ suc (length t.zombies)
            → Returned t (sig_chld is t))
        → Returned s (sig_chld is (turn zombies))
    go [] q ih = rw (returned_stays is (record s { handling = false }) refl) (record {
      left = refl;
      none_left = q;
      counted = λ x. omega (arith, ap (count x) q);
      point_kept = refl;
      running_kept = refl;
      accepted_kept = refl;
    })
    go (c ∷ cs) q ih =
        let r =
          ih (waited (pick i c cs) s) inside (omega (arith, e, ap length q, length-pick i c cs)) in
        record {
          left = r.left;
          none_left = r.none_left;
          counted = λ x. omega (arith, r.counted x, ap (count x) q, count-pick x i c cs);
          point_kept = r.point_kept;
          running_kept = r.running_kept;
          accepted_kept = r.accepted_kept;
        }

-- Where SIGCHLD is delivered in a state that the steps lead to, and no child ends meanwhile: sig_chld
-- has returned after as many calls of waitpid as there are zombies and one more, whichever zombies
-- they choose, and when it returns no zombie is left: each connection that was accepted is then with
-- just one of a child that was waited for, a running child, and the parent before Fork.
pub sig_chld-Settles :
    {s : Server}
    → Reach s
    → (is : List ℕ) → length is ≡ suc (length s.zombies)
    → Returned s (sig_chld is (enter_handler s))
      × ((c : ℕ)
          → count c s.accepted
            ≡ count c (sig_chld is (enter_handler s)).reaped
              + count c s.running
              + count c (unforked s.point))
unfolding enter_handler
sig_chld-Settles {s} r is e = (kept, λ c. omega (arith, kept.counted c, (Reach-Tidy r).placed c))
  where
    done : Returned (enter_handler s) (sig_chld is (enter_handler s))
    done = sig_chld-Returned is (enter_handler s) refl e

    kept : Returned s (sig_chld is (enter_handler s))
    kept = record {
      left = done.left;
      none_left = done.none_left;
      counted = done.counted;
      point_kept = done.point_kept;
      running_kept = done.running_kept;
      accepted_kept = done.accepted_kept;
    }
