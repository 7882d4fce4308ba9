-- ===== src/Prefork.antt =====
-- origin-src/unpv13e/server/serv05.c and child05.c: a parent that hands connections to preforked
-- children over pipes, and learns through them when a child is free again.
pub mod Agreement
pub mod Invariant
mod Tests
use my_unp.Prelude.{
  ℕ, zero, suc, ◌+◌, ◌-◌, List, [], ◌∷◌, Bool, true, false, ◌&&◌, ltb, ◌==◌, if◌then◌else◌, Option,
  none, some, replicate,
}

-- The child's process (child05.c): it waits in Read_fd, runs web_child, or has written its byte.
pub data Worker : Type 0 where
  idle serving reported : Worker

-- `Child` of the parent's table, beside the process itself.
pub record Child : Type 0 where
  pub busy : Bool
  pub count : ℕ
  pub worker : Worker

pub record Parent : Type 0 where
  pub children : List Child
  pub navail : ℕ

-- What Select and Read answer in one round: the listening socket, the pipes, and a pipe at end of
-- file.
pub record Kernel : Type 0 where
  pub nsel : ℕ
  pub listen_ready : Bool
  pub readable : ℕ → Bool
  pub pipe_eof : ℕ → Bool

pub data Outcome : Type 0 where
  running : Parent → Outcome
  no_available_children : Outcome
  child_terminated : ℕ → Outcome

-- The table when all children are forked.
unfoldable pub init : ℕ → Parent
init n = record {
  children = replicate n (record { busy = false; count = 0; worker = idle });
  navail = n;
}

-- Mark a child busy, count, and write the descriptor to its pipe.
abbrev pub dispatch : Child → Child
dispatch c = record c { busy = true; count = c.count + 1; worker = serving }

-- The choice at one child, given its status and the choice among those behind it.
abbrev pub choose : Bool → Child → List Child → Option (List Child) → Option (List Child)
choose false c cs behind = some (dispatch c ∷ cs)
choose true c cs none = none
choose true c cs (some cs') = some (c ∷ cs')

-- The first child whose status is 0 gets the connection; `none` where there is none.
unfoldable pub assign : List Child → Option (List Child)
assign [] = none
assign (c ∷ cs) = choose (c.busy) c cs (assign cs)

-- Read the child's byte and set its status to 0.
abbrev pub release : Child → Child
release c = record c { busy = false; worker = idle }

-- What the loop over the pipes did: the children, and how many are free again.
pub data Collected : Type 0 where
  collected : List Child → ℕ → Collected
  terminated : ℕ → Collected

abbrev pub put_child : Child → ℕ → Collected → Collected
put_child c n (collected cs gain) = collected (c ∷ cs) (gain + n)
put_child c n (terminated i) = terminated i

-- `for (i = 0; i < nchildren; i++)`, from child `i` on, until nsel descriptors were seen.
unfoldable pub collect : Kernel → ℕ → ℕ → List Child → Collected
collect k i nsel [] = collected [] 0
collect k i nsel (c ∷ cs) = elim (k.readable i) [
  | false ↦ put_child c 0 (collect k (i + 1) nsel cs)
  | true ↦ elim (k.pipe_eof i) [
    | true ↦ terminated i
    | false ↦ elim (nsel == 1) [
      | true ↦ collected (release c ∷ cs) 1
      | false ↦ put_child (release c) 1 (collect k (i + 1) (nsel - 1) cs)
    ]
  ]
]

-- The loop over the pipes as a step of the parent.
unfoldable pub collect_stage : Kernel → ℕ → Parent → Outcome
collect_stage k nsel p = elim (collect k 0 nsel p.children) [
  | collected cs gain ↦ running (record { children = cs; navail = p.navail + gain })
  | terminated i ↦ child_terminated i
]

-- One round of `for ( ; ; )`: the listening socket is asked for only with children available.
unfoldable pub round : Kernel → Parent → Outcome
round k p =
    if k.listen_ready && ltb 0 p.navail
    then elim (assign p.children) [
      | none ↦ no_available_children
      | some cs ↦
          let p' : Parent = record { children = cs; navail = p.navail - 1 } in
          if k.nsel == 1 then running p' else collect_stage k (k.nsel - 1) p'
    ]
    else collect_stage k k.nsel p

-- web_child is done, and the child writes its byte.
abbrev pub write_byte : Worker → Worker
write_byte serving = reported
write_byte w = w

-- The step of child `i` between two rounds.
unfoldable pub report : ℕ → List Child → List Child
report i [] = []
report zero (c ∷ cs) = record c { worker = write_byte (c.worker) } ∷ cs
report (suc i) (c ∷ cs) = c ∷ report i cs
