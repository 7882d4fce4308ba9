-- ===== src/Rtt/Exchange.antt =====
-- origin-src/unpv13e/rtt/dg_send_recv.c: a request over UDP, with timeouts and retransmissions.
pub mod Sends
pub mod Answer
pub mod Measured
use my_unp.Prelude.{
  ℕ, zero, suc, ◌+◌, ◌-◌, ◌%◌, ◌^◌, List, [], ◌∷◌, ◌++◌, Bool, true, false, ◌==◌, ◌||◌, ltb,
  if◌then◌else◌,
}
use my_unp.Rtt.Float.{FloatOps}
use my_unp.Rtt.{RttInfo, Timeval, sub32, init, ts, newpack, start, stop, timeout}

-- `struct hdr`
pub record Hdr : Type 0 where
  pub seq : ℕ
  pub ts : ℕ

-- sizeof(struct hdr)
abbrev pub hdr_size : ℕ
hdr_size = 8

-- What ends a wait in Recvmsg: a datagram of `n` bytes with this header, or SIGALRM, with the time.
pub data Event : Type 0 where
  received : ℕ → Hdr → Timeval → Event
  alarm : Timeval → Event

-- The static variables, the datagrams sent (their headers) and the seconds given to alarm().
pub record Peer (F : Type 0) : Type 0 where
  pub rttinfo : RttInfo F
  pub rttinit : Bool
  pub sendhdr : Hdr
  pub sends : List Hdr
  pub alarms : List ℕ

-- How a call ends: with the size of the answer, with -1 and ETIMEDOUT, or it waits still.
pub data Reply (F : Type 0) : Type 0 where
  answered : ℕ → Peer F → Reply F
  timed_out : Peer F → Reply F
  waiting : Peer F → Reply F

module _ {F : Type 0} (fl : FloatOps F) where
  -- `sendagain:` up to the start of the timer.
  unfoldable pub send_again : Timeval → Peer F → Peer F
  send_again now p =
      let h : Hdr = record { seq = p.sendhdr.seq; ts = ts fl p.rttinfo now } in
      record p {
        sendhdr = h;
        sends = p.sends ++ (h ∷ []);
        alarms = p.alarms ++ (start fl p.rttinfo ∷ []);
      }

  -- SIGALRM: the body of `if (sigsetjmp(jmpbuf, 1) != 0)`, with `true` for giving up.
  unfoldable pub on_alarm : Timeval → Peer F → Peer F × Bool
  on_alarm now p =
      let (r, give_up) = timeout fl p.rttinfo in
      if give_up
      then (record p { rttinfo = r; rttinit = false }, true)
      else (send_again now (record p { rttinfo = r }), false)

  -- The test of the `do` loop: not an answer to what was sent last.
  unfoldable pub ignores : Peer F → ℕ → Hdr → Bool
  ignores p n h = ltb n hdr_size || (if h.seq == p.sendhdr.seq then false else true)

  -- The answer has come: stop the timer and measure.
  unfoldable pub finish : Hdr → Timeval → Peer F → Peer F
  finish h now p = record p { rttinfo = stop fl p.rttinfo (sub32 (ts fl p.rttinfo now) h.ts) }

  -- The wait for the answer, over what ends each Recvmsg.
  unfoldable pub await : List Event → Peer F → Reply F
  await [] p = waiting p
  await (alarm now ∷ es) p =
      let (p', give_up) = on_alarm now p in
      elim give_up [ true ↦ timed_out p' | false ↦ await es p' ]
  await (received n h now ∷ es) p = elim (ignores p n h) [
    | true ↦ await es p
    | false ↦ answered (n - hdr_size) (finish h now p)
  ]

  -- The first call sets the estimator up.
  unfoldable pub ready : Timeval → Peer F → Peer F
  ready now p = if p.rttinit then p else record p { rttinfo = init fl now; rttinit = true }

  -- The next sequence number, and rtt_newpack.
  unfoldable pub next_request : Peer F → Peer F
  next_request p = record p {
    sendhdr = record (p.sendhdr) { seq = (p.sendhdr.seq + 1) % 2 ^ 32 };
    rttinfo = newpack fl (p.rttinfo);
  }

  unfoldable pub dg_send_recv : Timeval → List Event → Peer F → Reply F
  dg_send_recv now es p = await es (send_again now (next_request (ready now p)))
