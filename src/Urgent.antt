-- ===== src/Urgent.antt =====
-- my-src/Chapter-24/tcp_urg_select_receiver2.c and tcp_urg_select_receiver.c: receivers that read
-- out-of-band data when select reports an exceptional condition.
pub mod Order
mod Tests
use my_unp.Prelude.{
  ℕ, zero, suc, ◌+◌, List, [], ◌∷◌, ◌++◌, Bool, true, false, ◌&&◌, ◌==◌, if◌then◌else◌,
}

-- What the loop did: Recv with MSG_OOB, or a Read of so many bytes.
pub data Event : Type 0 where
  oob_read : ℕ → Event
  normal_read : ℕ → Event

-- The locals of main, with a log.
pub record Receiver : Type 0 where
  pub justreadoob : Bool
  pub rset : Bool
  pub xset : Bool
  pub log : List Event

-- What Select, Recv and Read answer in one round.
pub record Kernel : Type 0 where
  pub readable : Bool
  pub exceptional : Bool
  pub recv_count : ℕ
  pub read_count : ℕ

pub data Outcome : Type 0 where
  running : Receiver → Outcome
  exited : Receiver → Outcome

abbrev pub start : Receiver
start = record { justreadoob = false; rset = false; xset = false; log = [] }

-- FD_SET of both, the second only behind normal data, and Select.
unfoldable pub select : Kernel → Receiver → Receiver
select k r = record r {
  rset = k.readable;
  xset = (if r.justreadoob then r.xset else true) && k.exceptional;
}

-- `if (FD_ISSET(connfd, &xset))`
unfoldable pub oob_stage : Kernel → Receiver → Receiver
oob_stage k r =
    if r.xset
    then record r { justreadoob = true; xset = false; log = r.log ++ (oob_read k.recv_count ∷ []) }
    else r

-- `if (FD_ISSET(connfd, &rset))`: 0 bytes are end of file.
unfoldable pub normal_stage : Kernel → Receiver → Outcome
normal_stage k r =
    if r.rset
    then (if k.read_count == 0
        then exited r
        else running
            (record r { justreadoob = false; log = r.log ++ (normal_read k.read_count ∷ []) }))
    else running r

unfoldable pub round : Kernel → Receiver → Outcome
round k r = normal_stage k (oob_stage k (select k r))

abbrev pub then_run : (Receiver → Outcome) → Outcome → Outcome
then_run f (running r) = f r
then_run f (exited r) = exited r

unfoldable pub run : List Kernel → Receiver → Outcome
run [] r = running r
run (k ∷ ks) r = then_run (run ks) (round k r)

-- The select of tcp_urg_select_receiver.c, which has no flag: both are asked for in every round.
unfoldable pub select_always : Kernel → Receiver → Receiver
select_always k r = record r { rset = k.readable; xset = k.exceptional }

-- The out-of-band stage there.
unfoldable pub oob_always : Kernel → Receiver → Receiver
oob_always k r = if r.xset then record r { log = r.log ++ (oob_read k.recv_count ∷ []) } else r

unfoldable pub round_always : Kernel → Receiver → Outcome
round_always k r = normal_stage k (oob_always k (select_always k r))
