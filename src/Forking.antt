-- ===== src/Forking.antt =====
-- my-src/Chapter-30/Paradigm-1/server.c and sig_chld.c: a server that forks a child for each
-- connection, and the handler of SIGCHLD that waits for the children. The loops of
-- my-src/Chapter-05/tcpsrv04.c and sigchld.c are the same.
pub mod Reaping
pub mod Settling
mod Tests
use my_unp.Prelude.{ℕ, zero, suc, ◌≡◌, List, [], ◌∷◌, ◌++◌, Bool, true, false, ◌==◌, if◌then◌else◌}

-- Where the parent is in its loop: in accept, or behind it with the descriptor, and then behind Fork.
-- It ends at err_sys: of accept, or of the wrapper Fork.
pub data Point : Type 0 where
  accepting : Point
  forking : ℕ → Point
  closing : ℕ → Point
  accept_failed : Point
  fork_failed : ℕ → Point

-- The parent and its children. `descriptors` are the connected sockets that the parent has open,
-- `running` those that the children serve, `zombies` those of the children that ended, `reaped` those of
-- the children that waitpid returned; `pending` is whether SIGCHLD waits for delivery, `handling` whether
-- the parent is in sig_chld. `accepted` is all the connections up to now.
pub record Server : Type 0 where
  pub point : Point
  pub descriptors : List ℕ
  pub running : List ℕ
  pub zombies : List ℕ
  pub reaped : List ℕ
  pub accepted : List ℕ
  pub pending : Bool
  pub handling : Bool

abbrev pub start : Server
start = record {
  point = accepting;
  descriptors = [];
  running = [];
  zombies = [];
  reaped = [];
  accepted = [];
  pending = false;
  handling = false;
}

-- What accept hands back: a descriptor, or -1 with errno EINTR, or with another.
pub data AcceptReply : Type 0 where
  connected : ℕ → AcceptReply
  accept_intr accept_error : AcceptReply

unfoldable pub on_accept : AcceptReply → Server → Server
on_accept (connected connfd) s = record s {
  point = forking connfd;
  descriptors = connfd ∷ s.descriptors;
  accepted = connfd ∷ s.accepted;
}
on_accept accept_intr s = s
on_accept accept_error s = record s { point = accept_failed }

-- Fork, in the parent and in the child; it may fail.
unfoldable pub fork_child : Bool → ℕ → Server → Server
fork_child true connfd s = record s { point = closing connfd; running = connfd ∷ s.running }
fork_child false connfd s = record s { point = fork_failed connfd }

abbrev pub without : ℕ → List ℕ → List ℕ
without fd [] = []
without fd (c ∷ cs) = let rest = without fd cs in if c == fd then cs else c ∷ rest

-- `Close(connfd)` of the parent, and back to the top.
unfoldable pub close_connection : ℕ → Server → Server
close_connection connfd s = record s {
  point = accepting;
  descriptors = without connfd s.descriptors;
}

-- The one of the list that stands behind `i` others, or the last, and the rest.
unfoldable pub pick : ℕ → ℕ → List ℕ → ℕ × List ℕ
pick zero c cs = (c, cs)
pick (suc i) c [] = (c, [])
pick (suc i) c (d ∷ ds) = let (x, rest) = pick i d ds in (x, c ∷ rest)

abbrev pub ended : ℕ × List ℕ → Server → Server
ended (c, rest) s = record s { running = rest; zombies = c ∷ s.zombies; pending = true }

-- A child returns from web_child and exits: it is a zombie, and SIGCHLD is sent.
unfoldable pub child_exits : ℕ → Server → Server
child_exits i s = elim s.running [ [] ↦ s | c ∷ cs ↦ ended (pick i c cs) s ]

-- The signal is delivered.
unfoldable pub enter_handler : Server → Server
enter_handler s = record s { pending = false; handling = true }

abbrev pub waited : ℕ × List ℕ → Server → Server
waited (c, rest) s = record s { zombies = rest; reaped = c ∷ s.reaped }

-- One turn of `while (waitpid(-1, &stat, WNOHANG) > 0)`: some zombie, the `i`-th, or the end of the
-- handler.
unfoldable pub wait_turn : ℕ → Server → Server
wait_turn i s = elim s.zombies [
  | [] ↦ record s { handling = false }
  | c ∷ cs ↦ waited (pick i c cs) s
]

-- The steps. The main loop goes on only outside of the handler; SIGCHLD is blocked inside.
pub data Step (s : Server) : Server → Type 0 where
  accepts : (r : AcceptReply) → s.point ≡ accepting → s.handling ≡ false → Step s (on_accept r s)
  forks :
      (ok : Bool) (connfd : ℕ)
      → s.point ≡ forking connfd
      → s.handling ≡ false
      → Step s (fork_child ok connfd s)
  closes :
      (connfd : ℕ)
      → s.point ≡ closing connfd
      → s.handling ≡ false
      → Step s (close_connection connfd s)
  exits : (i : ℕ) → Step s (child_exits i s)
  delivers : s.pending ≡ true → s.handling ≡ false → Step s (enter_handler s)
  waits : (i : ℕ) → s.handling ≡ true → Step s (wait_turn i s)

-- The states that steps lead to.
pub data Steps (s : Server) : Server → Type 0 where
  here : Steps s s
  later : {t u : Server} → Steps s t → Step t u → Steps s u

abbrev pub Reach : Server → Type 0
Reach s = Steps start s
