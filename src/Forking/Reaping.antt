-- ===== src/Forking/Reaping.antt =====
-- No child is left a zombie, and no connection is lost or served twice.
use my_unp.Prelude.{
  ℕ, zero, suc, ◌+◌, ◌≡◌, refl, ◌∙◌, ap, List, [], ◌∷◌, Bool, true, false, ◌==◌, if◌then◌else◌, ◌⊎◌,
  inl, inr, arith,
}
use my_unp.Forking.{
  Point, accepting, forking, closing, accept_failed, fork_failed, Server, start, AcceptReply,
  connected, accept_intr, accept_error, on_accept, fork_child, without, close_connection, pick,
  ended, child_exits, enter_handler, waited, wait_turn, Step, accepts, forks, closes, exits,
  delivers, waits, here, later, Reach,
}

-- How often a descriptor stands in a list.
unfoldable pub count : ℕ → List ℕ → ℕ
count c [] = 0
count c (d ∷ ds) = (if d == c then 1 else 0) + count c ds

-- The connection that the parent has to itself.
abbrev pub unforked : Point → List ℕ
unforked accepting = []
unforked (forking c) = c ∷ []
unforked (closing c) = []
unforked accept_failed = []
unforked (fork_failed c) = c ∷ []

-- The connected socket that the parent has open.
abbrev pub held : Point → List ℕ
held accepting = []
held (forking c) = c ∷ []
held (closing c) = c ∷ []
held accept_failed = []
held (fork_failed c) = c ∷ []

-- The state is in order: SIGCHLD is on its way to a zombie; each connection is with just one of the
-- parent, a child that runs, a zombie, or a child that was waited for; and the parent has only the
-- socket open that it has accepted last, until it closes it.
pub record Tidy (s : Server) : Type 0 where
  pub signalled : (s.zombies ≡ []) ⊎ (s.pending ≡ true) ⊎ (s.handling ≡ true)
  pub placed :
      (c : ℕ)
      → count c s.accepted
        ≡ count c s.reaped + count c s.zombies + count c s.running + count c (unforked s.point)
  pub descriptors_held : s.descriptors ≡ held s.point

pub count-pick :
    (x i c : ℕ) (cs : List ℕ) → count x ((pick i c cs).0 ∷ (pick i c cs).1) ≡ count x (c ∷ cs)
unfolding pick count
count-pick x zero c cs = refl
count-pick x (suc i) c [] = refl
count-pick x (suc i) c (d ∷ ds) = omega (arith, count-pick x i d ds)

start-Tidy : Tidy start
unfolding count
start-Tidy = record { signalled = inl refl; placed = λ c. refl; descriptors_held = refl }

on_accept-Tidy :
    (r : AcceptReply) (s : Server) → s.point ≡ accepting → Tidy s → Tidy (on_accept r s)
unfolding on_accept count
on_accept-Tidy (connected connfd) s e h = record {
  signalled = h.signalled;
  placed = λ c. omega (arith, h.placed c, ap (λ p. count c (unforked p)) e);
  descriptors_held = ap (λ ds. connfd ∷ ds) (h.descriptors_held ∙ ap held e);
}
on_accept-Tidy accept_intr s e h = h
on_accept-Tidy accept_error s e h = record {
  signalled = h.signalled;
  placed = λ c. omega (arith, h.placed c, ap (λ p. count c (unforked p)) e);
  descriptors_held = h.descriptors_held ∙ ap held e;
}

fork_child-Tidy :
    (ok : Bool) (connfd : ℕ) (s : Server)
    → s.point ≡ forking connfd
    → Tidy s
    → Tidy (fork_child ok connfd s)
unfolding fork_child count
fork_child-Tidy true connfd s e h = record {
  signalled = h.signalled;
  placed = λ c. omega (arith, h.placed c, ap (λ p. count c (unforked p)) e);
  descriptors_held = h.descriptors_held ∙ ap held e;
}
fork_child-Tidy false connfd s e h = record {
  signalled = h.signalled;
  placed = λ c. omega (arith, h.placed c, ap (λ p. count c (unforked p)) e);
  descriptors_held = h.descriptors_held ∙ ap held e;
}

without-alone : (c : ℕ) → without c (c ∷ []) ≡ []
without-alone c = let same : (c == c) ≡ true = ground arith in rw same refl

close_connection-Tidy :
    (connfd : ℕ) (s : Server) → s.point ≡ closing connfd → Tidy s → Tidy (close_connection connfd s)
unfolding close_connection count
close_connection-Tidy connfd s e h = record {
  signalled = h.signalled;
  placed = λ c. omega (arith, h.placed c, ap (λ p. count c (unforked p)) e);
  descriptors_held = ap (without connfd) (h.descriptors_held ∙ ap held e) ∙ without-alone connfd;
}

child_exits-Tidy : (i : ℕ) (s : Server) → Tidy s → Tidy (child_exits i s)
unfolding child_exits count
child_exits-Tidy i s h = go s.running refl
  where
    go :
        (running : List ℕ)
        → s.running ≡ running
        → Tidy (elim running [ [] ↦ s | c ∷ cs ↦ ended (pick i c cs) s ])
    go [] e = h
    go (c ∷ cs) e = record {
      signalled = inr (inl refl);
      placed = λ x. omega (arith, h.placed x, ap (count x) e, count-pick x i c cs);
      descriptors_held = h.descriptors_held;
    }

enter_handler-Tidy : (s : Server) → Tidy s → Tidy (enter_handler s)
unfolding enter_handler
enter_handler-Tidy s h = record {
  signalled = inr (inr refl);
  placed = h.placed;
  descriptors_held = h.descriptors_held;
}

wait_turn-Tidy : (i : ℕ) (s : Server) → s.handling ≡ true → Tidy s → Tidy (wait_turn i s)
unfolding wait_turn count
wait_turn-Tidy i s inside h = go s.zombies refl
  where
    go :
        (zombies : List ℕ)
        → s.zombies ≡ zombies
        → Tidy
            (elim zombies [ [] ↦ record s { handling = false } | c ∷ cs ↦ waited (pick i c cs) s ])
    go [] e = record { signalled = inl e; placed = h.placed; descriptors_held = h.descriptors_held }
    go (c ∷ cs) e = record {
      signalled = inr (inr inside);
      placed = λ x. omega (arith, h.placed x, ap (count x) e, count-pick x i c cs);
      descriptors_held = h.descriptors_held;
    }

pub Step-Tidy : {s t : Server} → Step s t → Tidy s → Tidy t
Step-Tidy {s} (accepts r e _) h = on_accept-Tidy r s e h
Step-Tidy {s} (forks ok connfd e _) h = fork_child-Tidy ok connfd s e h
Step-Tidy {s} (closes connfd e _) h = close_connection-Tidy connfd s e h
Step-Tidy {s} (exits i) h = child_exits-Tidy i s h
Step-Tidy {s} (delivers _ _) h = enter_handler-Tidy s h
Step-Tidy {s} (waits i inside) h = wait_turn-Tidy i s inside h

-- In every state that the steps of the parent, the children and the kernel lead to, failures of accept
-- and Fork included: where there is a zombie, SIGCHLD is pending or the parent is in its handler;
-- each connection that was accepted is with just one of the parent before Fork, a running child, a
-- zombie, and a child that was waited for; and the parent has no connected socket open but the one
-- that it has just accepted.
pub Reach-Tidy : {s : Server} → Reach s → Tidy s
Reach-Tidy here = start-Tidy
Reach-Tidy (later r step) = Step-Tidy step (Reach-Tidy r)
