-- ===== src/Prefork/Agreement.antt =====
-- What assigning and collecting keep of the parent's table.
use my_unp.Prelude.{
  ℕ, suc, ◌+◌, ◌-◌, ◌≡◌, refl, ◌∙◌, sym, ap, subst, List, [], ◌∷◌, ◌++◌, Bool, true, false, ◌==◌,
  if◌then◌else◌, Option, none, some, Bool-cases, inl, inr, arith,
}
use my_unp.Prefork.{
  Worker, idle, serving, reported, Child, Parent, Kernel, choose, assign, release, Collected,
  collected, terminated, put_child, collect,
}

-- The parent's status of a child agrees with the process: busy from the descriptor to the byte.
abbrev pub status_of : Worker → Bool
status_of idle = false
status_of serving = true
status_of reported = true

abbrev pub Agree : List Child → Type 0
Agree [] = Unit
Agree (c ∷ cs) = (c.busy ≡ status_of (c.worker)) × Agree cs

-- The children whose status is 0, and the connections that each child was given.
abbrev pub free : List Child → ℕ
free [] = 0
free (c ∷ cs) = (if c.busy then 0 else 1) + free cs

abbrev pub counts : List Child → List ℕ
counts [] = []
counts (c ∷ cs) = c.count ∷ counts cs

abbrev pub AllBusy : List Child → Type 0
AllBusy [] = Unit
AllBusy (c ∷ cs) = (c.busy ≡ true) × AllBusy cs

-- The first child whose status is 0, which waits in Read_fd, has one connection more, and the others
-- have what they had.
pub record HandsOver (cs : List Child) (given : List ℕ) : Type 0 where
  pub front : List Child
  pub child : Child
  pub back : List Child
  pub split : cs ≡ front ++ (child ∷ back)
  pub front_busy : AllBusy front
  pub child_free : child.busy ≡ false
  pub child_idle : child.worker ≡ idle
  pub one_more : given ≡ counts front ++ (suc child.count ∷ counts back)

pub record Inv (p : Parent) : Type 0 where
  pub agree : Agree p.children
  pub count : p.navail ≡ free p.children

-- Select reports a pipe, from child `i` on, only if its child wrote its byte or is dead.
abbrev pub Honest : Kernel → ℕ → List Child → Type 0
Honest k i [] = Unit
Honest k i (c ∷ cs) =
    (k.readable i ≡ true → k.pipe_eof i ≡ false → c.worker ≡ reported) × Honest k (i + 1) cs

-- A connection handed over: one child less is free.
abbrev pub Assigned : List Child → Option (List Child) → Type 0
Assigned cs none = free cs ≡ 0
Assigned cs (some cs') =
    (free cs ≡ suc (free cs'))
    × (Agree cs → HandsOver cs (counts cs'))
    × (Agree cs → Agree cs')
    × ((k : Kernel) (i : ℕ) → Agree cs → Honest k i cs → Honest k i cs')

idle_if_free : (c : Child) → c.busy ≡ false → c.busy ≡ status_of (c.worker) → c.worker ≡ idle
idle_if_free c e a = go c.worker refl
  where
    go : (w : Worker) → c.worker ≡ w → c.worker ≡ idle
    go idle q = q
    go serving q = let clash = a ∙ ap status_of q in absurd cc
    go reported q = let clash = a ∙ ap status_of q in absurd cc

-- A free child has no byte in its pipe.
quiet_if_free :
    (c : Child)
    → c.busy ≡ false
    → c.busy ≡ status_of (c.worker)
    → c.worker ≡ reported
    → serving ≡ reported
quiet_if_free c e a w = let clash = a ∙ ap status_of w in cc

choose-Assigned :
    (b : Bool) (c : Child) (cs : List Child) (r : Option (List Child))
    → c.busy ≡ b
    → Assigned cs r
    → Assigned (c ∷ cs) (choose b c cs r)
choose-Assigned false c cs r e h = (
  ground arith,
  λ a. record {
    front = [];
    child = c;
    back = cs;
    split = refl;
    front_busy = tt;
    child_free = e;
    child_idle = idle_if_free c e a.0;
    one_more = ap (λ n. n ∷ counts cs) (omega arith);
  },
  λ a. (refl, a.1),
  λ k i a h. (λ ready alive. quiet_if_free c e a.0 (h.0 ready alive), h.1),
)
choose-Assigned true c cs none e h = ground arith
choose-Assigned true c cs (some cs') e h = (
  ground arith,
  λ a. behind (h.1 a.1),
  λ a. (a.0, h.2 a.1),
  λ k i a g. (g.0, h.3 k (i + 1) a.1 g.1),
)
  where
    behind : HandsOver cs (counts cs') → HandsOver (c ∷ cs) (counts (c ∷ cs'))
    behind v = record {
      front = c ∷ v.front;
      child = v.child;
      back = v.back;
      split = ap (λ xs. c ∷ xs) v.split;
      front_busy = (e, v.front_busy);
      child_free = v.child_free;
      child_idle = v.child_idle;
      one_more = ap (λ ns. c.count ∷ ns) v.one_more;
    }

pub assign-Assigned : (cs : List Child) → Assigned cs (assign cs)
unfolding assign
assign-Assigned [] = refl
assign-Assigned (c ∷ cs) = choose-Assigned (c.busy) c cs (assign cs) refl (assign-Assigned cs)

-- The loop over the pipes: as many free children more as bytes were read, and no connection is
-- touched; or the pipe of a dead child is found.
abbrev pub Gained : Kernel → List Child → Collected → Type 0
Gained k cs (collected cs' gain) =
    (free cs' ≡ free cs + gain) × (counts cs' ≡ counts cs) × Agree cs'
Gained k cs (terminated i) = (k.readable i ≡ true) × (k.pipe_eof i ≡ true)

put_child-Gained :
    (k : Kernel) (c : Child) (cs : List Child) (r : Collected)
    → c.busy ≡ status_of (c.worker)
    → Gained k cs r
    → Gained k (c ∷ cs) (put_child c 0 r)
put_child-Gained k c cs (collected cs' gain) a h =
    (omega arith, ap (λ ns. c.count ∷ ns) h.1, (a, h.2))
put_child-Gained k c cs (terminated i) a h = h

busy_if_reported : (c : Child) → c.busy ≡ status_of (c.worker) → c.worker ≡ reported → c.busy ≡ true
busy_if_reported c a e = a ∙ ap status_of e

release-Gained :
    (k : Kernel) (c : Child) (cs : List Child) (r : Collected)
    → c.busy ≡ true
    → Gained k cs r
    → Gained k (c ∷ cs) (put_child (release c) 1 r)
release-Gained k c cs (collected cs' gain) b h =
    (ground arith, ap (λ ns. c.count ∷ ns) h.1, (refl, h.2))
release-Gained k c cs (terminated i) b h = h

pub collect-Gained :
    (k : Kernel) (i nsel : ℕ) (cs : List Child)
    → Agree cs
    → Honest k i cs
    → Gained k cs (collect k i nsel cs)
unfolding collect
collect-Gained k i nsel [] a h = (omega arith, refl, tt)
collect-Gained k i nsel (c ∷ cs) a h = elim (Bool-cases (k.readable i)) [
  | inr quiet ↦
      rw (quiet, collect)
        (put_child-Gained k c cs (collect k (i + 1) nsel cs) a.0
          (collect-Gained k (i + 1) nsel cs a.1 h.1))
  | inl ready ↦ elim (Bool-cases (k.pipe_eof i)) [
    | inl dead ↦ read_dead ready dead
    | inr alive ↦ elim (Bool-cases (nsel == 1)) [
      | inl last ↦
          rw (ready, collect, alive, last)
            (let b = busy_if_reported c a.0 (h.0 ready alive) in (ground arith, refl, (refl, a.1)))
      | inr more ↦
          rw (ready, collect, alive, more)
            (release-Gained k c cs (collect k (i + 1) (nsel - 1) cs)
              (busy_if_reported c a.0 (h.0 ready alive))
              (collect-Gained k (i + 1) (nsel - 1) cs a.1 h.1))
    ]
  ]
]
  where
    stops : k.readable i ≡ true → k.pipe_eof i ≡ true → collect k i nsel (c ∷ cs) ≡ terminated i
    stops ready dead = rw (ready, collect, dead) refl

    read_dead :
        k.readable i ≡ true → k.pipe_eof i ≡ true → Gained k (c ∷ cs) (collect k i nsel (c ∷ cs))
    read_dead ready dead = subst (Gained k (c ∷ cs)) (sym (stops ready dead)) (ready, dead)
