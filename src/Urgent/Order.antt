-- ===== src/Urgent/Order.antt =====
-- Between two reads of out-of-band data stands a read of normal data.
use my_unp.Prelude.{
  ℕ, ◌≡◌, refl, ◌∙◌, sym, List, [], ◌∷◌, ◌++◌, Bool, true, false, ◌==◌, if◌then◌else◌, Bool-cases,
  inl, inr, arith,
}
use my_unp.Urgent.{
  Event, oob_read, normal_read, Receiver, Kernel, Outcome, running, exited, start, select,
  oob_stage, normal_stage, round, then_run, run, select_always, oob_always, round_always,
}

-- Reading a log from its start, with `last_oob` if an out-of-band read stands just before: no two
-- out-of-band reads stand together.
abbrev pub Spaced : Bool → List Event → Type 0
Spaced last_oob [] = Unit
Spaced last_oob (oob_read n ∷ es) = (last_oob ≡ false) × Spaced true es
Spaced last_oob (normal_read n ∷ es) = Spaced false es

-- Whether a log ends in an out-of-band read.
abbrev pub ends_oob : Bool → List Event → Bool
ends_oob b [] = b
ends_oob b (oob_read n ∷ es) = ends_oob true es
ends_oob b (normal_read n ∷ es) = ends_oob false es

Spaced-snoc :
    (b : Bool) (xs : List Event) (e : Event)
    → Spaced b xs
    → Spaced (ends_oob b xs) (e ∷ [])
    → Spaced b (xs ++ (e ∷ []))
Spaced-snoc b [] e h k = k
Spaced-snoc b (oob_read n ∷ xs) e h k = (h.0, Spaced-snoc true xs e h.1 k)
Spaced-snoc b (normal_read n ∷ xs) e h k = Spaced-snoc false xs e h k

ends_oob-snoc :
    (b : Bool) (xs : List Event) (e : Event) → ends_oob b (xs ++ (e ∷ [])) ≡ ends_oob false (e ∷ [])
ends_oob-snoc b [] (oob_read n) = refl
ends_oob-snoc b [] (normal_read n) = refl
ends_oob-snoc b (oob_read n ∷ xs) e = ends_oob-snoc true xs e
ends_oob-snoc b (normal_read n ∷ xs) e = ends_oob-snoc false xs e

-- The flag says how the log ends, and while it is set no exceptional condition is asked for.
pub record Inv (r : Receiver) : Type 0 where
  pub spaced : Spaced false r.log
  pub flag : r.justreadoob ≡ ends_oob false r.log
  pub not_asked : r.justreadoob ≡ true → r.xset ≡ false

select-Inv :
    (k : Kernel) (r : Receiver)
    → Inv r
    → Inv (select k r) × ((select k r).xset ≡ true → r.justreadoob ≡ false)
unfolding select
select-Inv k r v = elim (Bool-cases r.justreadoob) [
  | inl just ↦ (
    record { spaced = v.spaced; flag = v.flag; not_asked = λ e. ground (arith, v.not_asked just) },
    λ e. ground (arith, v.not_asked just),
  )
  | inr not_just ↦ (record { spaced = v.spaced; flag = v.flag; not_asked = λ e. cc }, λ e. not_just)
]

oob_stage-Inv :
    (k : Kernel) (r : Receiver)
    → Inv r
    → (r.xset ≡ true → r.justreadoob ≡ false)
    → Inv (oob_stage k r)
unfolding oob_stage
oob_stage-Inv k r v asked = go r.xset refl
  where
    e : Event
    e = oob_read k.recv_count

    go :
        (b : Bool)
        → r.xset ≡ b
        → Inv (
            if b then record r { justreadoob = true; xset = false; log = r.log ++ (e ∷ []) } else r)
    go false q = v
    go true q = record {
      spaced = Spaced-snoc false r.log e v.spaced (sym v.flag ∙ asked q, tt);
      flag = sym (ends_oob-snoc false r.log e);
      not_asked = λ _. refl;
    }

abbrev pub Orderly : Outcome → Type 0
Orderly (running r) = Inv r
Orderly (exited r) = Inv r

normal_stage-Inv : (k : Kernel) (r : Receiver) → Inv r → Orderly (normal_stage k r)
unfolding normal_stage
normal_stage-Inv k r v = go r.rset (k.read_count == 0)
  where
    e : Event
    e = normal_read k.read_count

    go :
        (b eof : Bool)
        → Orderly (
            if b
            then (if eof
                then exited r
                else running (record r { justreadoob = false; log = r.log ++ (e ∷ []) }))
            else running r)
    go false eof = v
    go true true = v
    go true false = record {
      spaced = Spaced-snoc false r.log e v.spaced tt;
      flag = sym (ends_oob-snoc false r.log e);
      not_asked = λ q. cc;
    }

round-Orderly : (k : Kernel) (r : Receiver) → Inv r → Orderly (round k r)
unfolding round select
round-Orderly k r v =
    let (v', asked) = select-Inv k r v in
    normal_stage-Inv k (oob_stage k (select k r)) (oob_stage-Inv k (select k r) v' asked)

run-Orderly : (ks : List Kernel) (r : Receiver) → Inv r → Orderly (run ks r)
unfolding run
run-Orderly [] r v = v
run-Orderly (k ∷ ks) r v = next (round k r) (round-Orderly k r v) (λ r v. run-Orderly ks r v)
  where
    next :
        (o : Outcome)
        → Orderly o
        → ((r : Receiver) → Inv r → Orderly (run ks r))
        → Orderly (then_run (run ks) o)
    next (running r) h f = f r h
    next (exited r) h f = h

-- In every run of the second receiver, whatever select reports: the flag is set just when the last
-- read was of out-of-band data, and no two reads of out-of-band data stand without a read of
-- normal data between them.
pub run-start-Orderly : (ks : List Kernel) → Orderly (run ks start)
run-start-Orderly ks =
    run-Orderly ks start (record { spaced = tt; flag = refl; not_asked = λ q. cc })

Spaced-append-two :
    (b : Bool) (xs : List Event) (m n : ℕ)
    → Spaced b ((xs ++ (oob_read m ∷ [])) ++ (oob_read n ∷ []))
    → ⊥
Spaced-append-two b [] m n h = cc (h.1.0)
Spaced-append-two b (oob_read l ∷ xs) m n h = Spaced-append-two true xs m n h.1
Spaced-append-two b (normal_read l ∷ xs) m n h = Spaced-append-two false xs m n h

-- The first receiver has no such order: from every state, two rounds in which select reports only
-- the exceptional condition read out-of-band data twice with no normal data between.
pub round_always_repeats :
    (j k : Kernel) (r : Receiver)
    → (j.readable ≡ false) × (j.exceptional ≡ true)
    → (k.readable ≡ false) × (k.exceptional ≡ true)
    → (t : Receiver) × (then_run (round_always k) (round_always j r) ≡ running t)
      × ¬ (Spaced false t.log)
unfolding round_always select_always oob_always normal_stage
round_always_repeats j k r hj hk = (
  record r {
    rset = false;
    xset = true;
    log = (r.log ++ (oob_read j.recv_count ∷ [])) ++ (oob_read k.recv_count ∷ []);
  },
  ground arith,
  Spaced-append-two false r.log j.recv_count k.recv_count,
)
