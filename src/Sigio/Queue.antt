-- ===== src/Sigio/Queue.antt =====
-- The ring of datagrams and the SIGIO handler that fills it (dgecho01.c).
pub mod Contents
use my_unp.Prelude.{
  ℕ, zero, suc, ◌+◌, ◌-◌, List, [], ◌∷◌, leb, if◌then◌else◌, set, get_or, replicate, true, false,
}

abbrev pub q_size : ℕ
q_size = 8

-- `DG`: what recvfrom left in the slot; dg_len and dg_salen are the lengths of the two lists.
pub record Datagram : Type 0 where
  pub payload : List ℕ
  pub address : List ℕ

abbrev pub no_datagram : Datagram
no_datagram = record { payload = []; address = [] }

-- The static variables.
pub record Queue : Type 0 where
  pub dg : List Datagram
  pub cntread : List ℕ
  pub iget : ℕ
  pub iput : ℕ
  pub nqueue : ℕ

-- What recvfrom hands back: a datagram, or -1 with an errno that is not EWOULDBLOCK.
pub data Recv : Type 0 where
  datagram : Datagram → Recv
  recv_error : ℕ → Recv

-- How the handler ends: it returns, or it ends the process.
pub data Handled : Type 0 where
  returned : Queue → Handled
  receive_overflow : Handled
  recvfrom_error : ℕ → Handled

-- `if (++i >= QSIZE) i = 0`
abbrev pub next : ℕ → ℕ
next i = if leb q_size (i + 1) then 0 else i + 1

-- The initialisation of dg_echo.
abbrev pub empty : Queue
empty = record {
  dg = replicate q_size no_datagram;
  cntread = replicate (q_size + 1) 0;
  iget = 0;
  iput = 0;
  nqueue = 0;
}

-- One datagram into the slot at iput.
unfoldable pub put : Queue → Datagram → Queue
put q d = record q { dg = set q.dg q.iput d; nqueue = q.nqueue + 1; iput = next q.iput }

-- `cntread[nread]++`
unfoldable pub count_read : Queue → ℕ → Queue
count_read q nread = record q { cntread = set q.cntread nread (get_or q.cntread nread 0 + 1) }

-- The loop of sig_io over what recvfrom will hand back before it would block.
unfoldable pub sig_io_loop : ℕ → Queue → List Recv → Handled
sig_io_loop nread q [] =
    if leb q_size q.nqueue then receive_overflow else returned (count_read q nread)
sig_io_loop nread q (r ∷ rs) = elim (leb q_size q.nqueue) [
  | true ↦ receive_overflow
  | false ↦ elim r [
    | datagram d ↦ sig_io_loop (nread + 1) (put q d) rs
    | recv_error e ↦ recvfrom_error e
  ]
]

unfoldable pub sig_io : Queue → List Recv → Handled
sig_io q rs = sig_io_loop 0 q rs
