-- ===== src/Prefork/Invariant.antt =====
-- The parent's count of free children is right, and it never runs out of children it believes free.
use my_unp.Prelude.{
  ℕ, zero, suc, ◌+◌, ◌-◌, ◌≡◌, refl, sym, subst, List, Bool, true, false, [], ◌∷◌, ◌&&◌, ltb, ◌==◌,
  Bool-cases, Option-cases, inl, inr, arith,
}
use my_unp.Prefork.{
  Worker, idle, serving, reported, Child, Parent, Kernel, Outcome, running, no_available_children,
  child_terminated, init, assign, Collected, collected, terminated, collect, collect_stage, round,
  report, write_byte,
}
use my_unp.Prefork.Agreement.{
  status_of, Agree, free, counts, HandsOver, Inv, Honest, Assigned, assign-Assigned, Gained,
  collect-Gained,
}

-- Whom the connection of a round went to, if it accepted one.
abbrev pub Given : List Child → Bool → List ℕ → Type 0
Given cs true given = HandsOver cs given
Given cs false given = given ≡ counts cs

-- How a round ends, with or without a connection accepted: the table agrees with the processes, and the
-- first child free was given the connection; or the pipe of a dead child was found.
abbrev pub Ends : Kernel → Parent → Bool → Outcome → Type 0
Ends k p accepted (running p') = Inv p' × Given p.children accepted (counts p'.children)
Ends k p accepted no_available_children = ⊥
Ends k p accepted (child_terminated i) = (k.readable i ≡ true) × (k.pipe_eof i ≡ true)

collect_stage-Ends :
    (k : Kernel) (nsel : ℕ) (p : Parent)
    → Inv p
    → Honest k 0 p.children
    → Ends k p false (collect_stage k nsel p)
unfolding collect_stage
collect_stage-Ends k nsel p v h =
    go (collect k 0 nsel p.children) (collect-Gained k 0 nsel p.children v.agree h)
  where
    go :
        (r : Collected)
        → Gained k p.children r
        → Ends k p false (elim r [
          | collected cs gain ↦ running (record { children = cs; navail = p.navail + gain })
          | terminated i ↦ child_terminated i
        ])
    go (collected cs gain) g = (record { agree = g.2; count = omega (arith, v.count, g.0) }, g.1)
    go (terminated i) g = g

-- A round, where Select reports a pipe only if its child wrote its byte or is dead: a connection
-- accepted goes to the first child that is free, which waits for one, and no other child's count of
-- connections changes; the parent never fails with "no available children", and with a terminated
-- child only at the end of file of a pipe; its count of available children stays right, and a
-- child's status says whether it is at work.
pub round-Ends :
    (k : Kernel) (p : Parent)
    → Inv p
    → Honest k 0 p.children
    → Ends k p (k.listen_ready && ltb 0 p.navail) (round k p)
unfolding round
round-Ends k p v h = elim (Bool-cases (k.listen_ready && ltb 0 p.navail)) [
  | inr no_accept ↦ rw no_accept (collect_stage-Ends k k.nsel p v h)
  | inl accepts ↦ elim (Option-cases (assign p.children)) [
    | inl full ↦ absurd (
        let z = subst (Assigned p.children) full (assign-Assigned p.children) in
        ground (arith, v.count))
    | inr (cs, ok) ↦
        let z = subst (Assigned p.children) ok (assign-Assigned p.children) in
        let p' : Parent = record { children = cs; navail = p.navail - 1 } in
        let v' : Inv p' = record { agree = z.2 v.agree; count = omega (arith, v.count, z.0) } in
        elim (Bool-cases (k.nsel == 1)) [
          | inl last ↦ rw (accepts, ok, last) (v', z.1 v.agree)
          | inr more ↦
              rw (accepts, ok, more)
                (after p' (collect_stage k (k.nsel - 1) p') (z.1 v.agree)
                  (collect_stage-Ends k (k.nsel - 1) p' v' (z.3 k 0 v.agree h)))
        ]
  ]
]
  where
    after :
        (p' : Parent) (r : Outcome)
        → HandsOver p.children (counts p'.children)
        → Ends k p' false r
        → Ends k p true r
    after p' (running q) e h = (h.0, subst (HandsOver p.children) (sym h.1) e)
    after p' no_available_children e h = h
    after p' (child_terminated i) e h = h

-- A child's step between the rounds.
report-Agree :
    (i : ℕ) (cs : List Child) → Agree cs → Agree (report i cs) × (free (report i cs) ≡ free cs)
unfolding report
report-Agree i [] a = (tt, refl)
report-Agree zero (c ∷ cs) a = ((write c.worker a.0, a.1), refl)
  where
    write : (w : Worker) → c.busy ≡ status_of w → c.busy ≡ status_of (write_byte w)
    write idle e = e
    write serving e = e
    write reported e = e
report-Agree (suc i) (c ∷ cs) a = let h = report-Agree i cs a.1 in ((a.0, h.0), omega (arith, h.1))

-- The parent's rounds and the children's steps, in any order.
pub data Step (p : Parent) : Parent → Type 0 where
  a_round : (k : Kernel) (q : Parent) → Honest k 0 p.children → round k p ≡ running q → Step p q
  child : (i : ℕ) → Step p (record p { children = report i p.children })

pub data Reach (n : ℕ) : Parent → Type 0 where
  begin : Reach n (init n)
  later : {p q : Parent} → Reach n p → Step p q → Reach n q

init-Inv : (n : ℕ) → Inv (init n)
unfolding init
init-Inv zero = record { agree = tt; count = refl }
init-Inv (suc n) =
    let v = init-Inv n in record { agree = (refl, v.agree); count = omega (arith, v.count) }

-- In every state that the parent's rounds and the children's steps reach from n idle children, in any
-- order, navail is the number of children whose status is 0, and the status of a child is 1 just
-- from the descriptor that it was sent to the byte that the parent has not yet read.
pub Reach-Inv : {n : ℕ} {p : Parent} → Reach n p → Inv p
Reach-Inv {n} begin = init-Inv n
Reach-Inv (later {p} {q} r (a_round k q' h e)) =
    let v = Reach-Inv r in
    (subst (Ends k p (k.listen_ready && ltb 0 p.navail)) e (round-Ends k p v h)).0
Reach-Inv (later {p} r (child i)) =
    let v = Reach-Inv r in
    let h = report-Agree i p.children v.agree in
    record { agree = h.0; count = omega (arith, h.1, v.count) }
