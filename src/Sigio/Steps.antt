-- ===== src/Sigio/Steps.antt =====
-- The main loop of dg_echo (dgecho01.c) and its handler, interleaved in every way that the signal
-- mask allows.
use my_unp.Prelude.{◌-◌, ◌≡◌, List, [], ◌∷◌, ◌++◌, get_or, ◌==◌, if◌then◌else◌, true, Bool}
use my_unp.Sigio.Queue.{Datagram, no_datagram, Queue, Recv, returned, next, empty, sig_io}
use my_unp.Sigio.Queue.Contents.{datagrams}

-- Where the main loop is: at `while (nqueue == 0)` with SIGIO blocked; and with SIGIO unblocked
-- before Sendto, behind it, and behind the step of iget.
pub data Pc : Type 0 where
  waiting sending sent advanced : Pc

-- `received` is every datagram that a handler took from the socket, `echoed` every one sent back.
pub record System : Type 0 where
  pub queue : Queue
  pub pc : Pc
  pub received : List Datagram
  pub echoed : List Datagram

abbrev pub start : System
start = record { queue = empty; pc = waiting; received = []; echoed = [] }

-- One step of the main loop at the given point. While nqueue is 0, sigsuspend waits.
unfoldable pub step_at : Pc → System → System
step_at waiting s = if s.queue.nqueue == 0 then s else record s { pc = sending }
step_at sending s = record s {
  pc = sent;
  echoed = s.echoed ++ (get_or s.queue.dg s.queue.iget no_datagram ∷ []);
}
step_at sent s = record s { pc = advanced; queue = record s.queue { iget = next s.queue.iget } }
step_at advanced s = record s {
  pc = waiting;
  queue = record s.queue { nqueue = s.queue.nqueue - 1 };
}

abbrev pub main_step : System → System
main_step s = step_at s.pc s

-- SIGIO is delivered while it is unblocked, and inside sigsuspend.
abbrev pub accepts_signal : System → Bool
accepts_signal s = elim s.pc [ waiting ↦ s.queue.nqueue == 0 | _ ↦ true ]

-- A step of the process; a signal comes with what recvfrom hands back to its handler.
pub data Step (s : System) : System → Type 0 where
  main : Step s (main_step s)
  signal :
      (rs : List Recv) (q : Queue)
      → accepts_signal s ≡ true
      → sig_io s.queue rs ≡ returned q
      → Step s (record s { queue = q; received = s.received ++ datagrams rs })

pub data Reach : System → Type 0 where
  begin : Reach start
  later : {s t : System} → Reach s → Step s t → Reach t
