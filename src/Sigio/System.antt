-- ===== src/Sigio/System.antt =====
-- What the interleaved main loop and handler keep.
use my_unp.Prelude.{
  ℕ, zero, suc, ◌+◌, ◌%◌, ◌≤◌, ◌<◌, ◌≡◌, refl, ◌∙◌, sym, ap, ap₂, subst, List, [], ◌∷◌, ◌++◌, arith,
  length, get_or, append_assoc, ◌==◌, Bool-cases, inl, inr,
}
use my_unp.Sigio.Queue.{Datagram, no_datagram, Queue}
use my_unp.Sigio.Queue.Contents.{slots, Ring, datagrams, Filled, Handles, sig_io-Handles}
use my_unp.Sigio.Steps.{
  waiting, sending, sent, advanced, Pc, System, start, step_at, Step, Reach, main, signal, begin,
  later,
}

-- What the main loop knows of the oldest slot `h` of `n`, `done` having been sent back before it.
abbrev Phase : Pc → System → ℕ → ℕ → List Datagram → Type 0
Phase waiting s h n done = (s.queue.iget ≡ h) × (s.echoed ≡ done)
Phase sending s h n done = (s.queue.iget ≡ h) × (s.echoed ≡ done) × (0 < n)
Phase sent s h n done =
    (s.queue.iget ≡ h) × (s.echoed ≡ done ++ (get_or s.queue.dg h no_datagram ∷ [])) × (0 < n)
Phase advanced s h n done =
    (s.queue.iget ≡ (h + 1) % 8)
    × (s.echoed ≡ done ++ (get_or s.queue.dg h no_datagram ∷ []))
    × (0 < n)

record Inv (s : System) : Type 0 where
  h : ℕ
  n : ℕ
  done : List Datagram
  ring : Ring s.queue h n
  account : s.received ≡ done ++ slots s.queue.dg h n
  phase : Phase s.pc s h n done

start-Inv : Inv start
start-Inv = record {
  h = 0;
  n = 0;
  done = [];
  ring = record {
    slots_there = refl;
    counters_there = refl;
    from_in = omega arith;
    counts = refl;
    fits = omega arith;
    behind = refl;
  };
  account = refl;
  phase = (refl, refl);
}

main-Inv :
    (p : Pc) (s : System) (h n : ℕ) (done : List Datagram)
    → s.pc ≡ p
    → Ring s.queue h n
    → s.received ≡ done ++ slots s.queue.dg h n
    → Phase p s h n done
    → Inv (step_at p s)
unfolding step_at
main-Inv waiting s h n done e v a ph = elim (Bool-cases (s.queue.nqueue == 0)) [
  | inl idle ↦
      rw idle (record { h = h; n = n; done = done; ring = v; account = a; phase = rw e ph })
  | inr busy ↦ rw busy (record {
    h = h;
    n = n;
    done = done;
    ring = v;
    account = a;
    phase = (ph.0, ph.1, ground arith);
  })
]
main-Inv sending s h n done e v a ph = record {
  h = h;
  n = n;
  done = done;
  ring = v;
  account = a;
  phase = (ph.0, ap₂ (λ x i. x ++ (get_or s.queue.dg i no_datagram ∷ [])) ph.1 ph.0, ph.2);
}
main-Inv sent s h n done e v a ph = record {
  h = h;
  n = n;
  done = done;
  ring = record {
    slots_there = v.slots_there;
    counters_there = v.counters_there;
    from_in = v.from_in;
    counts = v.counts;
    fits = v.fits;
    behind = v.behind;
  };
  account = a;
  phase = (ground arith, ph.1, ph.2);
}
main-Inv advanced s h zero done e v a ph = absurd (omega arith)
main-Inv advanced s h (suc m) done e v a ph = record {
  h = (h + 1) % 8;
  n = m;
  done = done ++ (get_or s.queue.dg h no_datagram ∷ []);
  ring = record {
    slots_there = v.slots_there;
    counters_there = v.counters_there;
    from_in = omega arith;
    counts = omega arith;
    fits = omega arith;
    behind = omega arith;
  };
  account =
      a
      ∙ sym (
          append_assoc done (get_or s.queue.dg h no_datagram ∷ [])
            (slots s.queue.dg ((h + 1) % 8) m));
  phase = (ph.0, ph.1);
}

-- The slot at hand is no slot that the handler writes.
oldest_kept :
    (q q' : Queue) (h n : ℕ) (ds : List Datagram)
    → slots q'.dg h (n + length ds) ≡ slots q.dg h n ++ ds
    → 0 < n
    → get_or q'.dg h no_datagram ≡ get_or q.dg h no_datagram
oldest_kept q q' h zero ds e p = absurd (omega arith)
oldest_kept q q' h (suc m) ds e p =
    let e' : suc m + length ds ≡ suc (m + length ds) = omega arith in let f = rw e' at e in cc f

signal-Phase :
    (p : Pc) (s t : System) (h n : ℕ) (done ds : List Datagram)
    → Filled s.queue t.queue h n 0 ds
    → t.echoed ≡ s.echoed
    → Phase p s h n done
    → Phase p t h (n + length ds) done
signal-Phase waiting s t h n done ds f e ph = (f.unmoved ∙ ph.0, e ∙ ph.1)
signal-Phase sending s t h n done ds f e ph = (f.unmoved ∙ ph.0, e ∙ ph.1, omega arith)
signal-Phase sent s t h n done ds f e ph = (
  f.unmoved ∙ ph.0,
  rw (oldest_kept s.queue t.queue h n ds f.appended ph.2) (e ∙ ph.1),
  omega arith,
)
signal-Phase advanced s t h n done ds f e ph = (
  f.unmoved ∙ ph.0,
  rw (oldest_kept s.queue t.queue h n ds f.appended ph.2) (e ∙ ph.1),
  omega arith,
)

Step-Inv : {s t : System} → Step s t → Inv s → Inv t
Step-Inv {s} main i = main-Inv s.pc s i.h i.n i.done refl i.ring i.account i.phase
Step-Inv {s} (signal rs q open_mask e) i = record {
  h = i.h;
  n = i.n + length (datagrams rs);
  done = i.done;
  ring = filled.ring;
  account =
      ap (λ p. p ++ datagrams rs) i.account
      ∙ append_assoc i.done (slots s.queue.dg i.h i.n) (datagrams rs)
      ∙ ap (λ p. i.done ++ p) (sym filled.appended);
  phase =
      signal-Phase s.pc s (record s { queue = q; received = s.received ++ datagrams rs }) i.h i.n
        i.done (datagrams rs) filled refl i.phase;
}
  where
    filled : Filled s.queue q i.h i.n 0 (datagrams rs)
    filled = subst (Handles s.queue i.h i.n 0 rs) e (sig_io-Handles rs s.queue i.h i.n i.ring)

Reach-Inv : {s : System} → Reach s → Inv s
Reach-Inv begin = start-Inv
Reach-Inv (later r st) = Step-Inv st (Reach-Inv r)

-- What the clients see: the datagrams sent back are the first of those received, in order; at most
-- QSIZE are outstanding.
pub record Echoes (s : System) : Type 0 where
  pub outstanding : List Datagram
  pub in_order : s.received ≡ s.echoed ++ outstanding
  pub bounded : length outstanding ≤ 8

length-slots : (dg : List Datagram) (h n : ℕ) → length (slots dg h n) ≡ n
length-slots dg h zero = refl
length-slots dg h (suc n) = ap suc (length-slots dg ((h + 1) % 8) n)

Echoes-of_Phase :
    (p : Pc) (s : System) (h n : ℕ) (done : List Datagram)
    → n ≤ 8
    → s.received ≡ done ++ slots s.queue.dg h n
    → Phase p s h n done
    → Echoes s
Echoes-of_Phase waiting s h n done few a ph = record {
  outstanding = slots s.queue.dg h n;
  in_order = rw ph.1 a;
  bounded = omega (arith, length-slots s.queue.dg h n);
}
Echoes-of_Phase sending s h n done few a ph = record {
  outstanding = slots s.queue.dg h n;
  in_order = rw ph.1 a;
  bounded = omega (arith, length-slots s.queue.dg h n);
}
Echoes-of_Phase sent s h zero done few a ph = absurd (omega arith)
Echoes-of_Phase sent s h (suc m) done few a ph = record {
  outstanding = slots s.queue.dg ((h + 1) % 8) m;
  in_order = rw ph.1 (
      a
      ∙ sym (
          append_assoc done (get_or s.queue.dg h no_datagram ∷ [])
            (slots s.queue.dg ((h + 1) % 8) m)));
  bounded = omega (arith, length-slots s.queue.dg ((h + 1) % 8) m);
}
Echoes-of_Phase advanced s h zero done few a ph = absurd (omega arith)
Echoes-of_Phase advanced s h (suc m) done few a ph = record {
  outstanding = slots s.queue.dg ((h + 1) % 8) m;
  in_order = rw ph.1 (
      a
      ∙ sym (
          append_assoc done (get_or s.queue.dg h no_datagram ∷ [])
            (slots s.queue.dg ((h + 1) % 8) m)));
  bounded = omega (arith, length-slots s.queue.dg ((h + 1) % 8) m);
}

-- In every state that the loop and its handler can reach, wherever the signals fall, the datagrams
-- sent back are exactly the first ones received, once each and in order, and at most QSIZE wait.
pub Reach-Echoes : {s : System} → Reach s → Echoes s
Reach-Echoes {s} r =
    let i = Reach-Inv r in Echoes-of_Phase s.pc s i.h i.n i.done i.ring.fits i.account i.phase
