-- ===== src/Rtt/Tests.antt =====
-- The estimator and a call of dg_send_recv over a fixed-point arithmetic, and the theorems there.
use my_unp.Prelude.{ℕ, ◌+◌, ◌-◌, ◌*◌, ◌/◌, ◌≡◌, List, [], ◌∷◌, true, false, ltb, arith, inr, refl}
use my_unp.Rtt.Float.{FloatOps}
use my_unp.Rtt.{Timeval, ts_at, sub32, stop}
use my_unp.Rtt.Bounds.{ts-sub32}
use my_unp.Rtt.Exchange.{
  answered, await, Event, received, alarm, Peer, send_again, ready, next_request, dg_send_recv,
}
use my_unp.Rtt.Exchange.Measured.{await-Measures}
use my_unp.Rtt.Exchange.Answer.{dg_send_recv-Ends}
use my_unp.Rtt.Exchange.Sends.{Ends}

-- Quarters.
abbrev quarters : FloatOps ℕ
quarters = record {
  of_ℕ = λ n. 4 * n;
  three_quarters = 3;
  half = 2;
  add = λ a b. a + b;
  sub = λ a b. a - b;
  mul = λ a b. (a * b) / 4;
  div = λ a b. (4 * a) / b;
  neg = λ a. a;
  lt = ltb;
  to_int = λ a. a / 4;
}

abbrev noon : Timeval
noon = record { sec = 43200; usec = 250000 }

abbrev later : Timeval
later = record { sec = 43201; usec = 0 }

ts_wraps : sub32 (ts_at 43200 later) (ts_at 43200 noon) ≡ 750
ts_wraps = ts-sub32 43200 noon later (omega arith) (omega arith) (omega arith)

abbrev fresh : Peer ℕ
fresh = record {
  rttinfo = record { rtt = 0; srtt = 0; rttvar = 0; rto = 0; nrexmt = 0; base = 0 };
  rttinit = false;
  sendhdr = record { seq = 6; ts = 0 };
  sends = [];
  alarms = [];
}

-- A late answer to request 6, a timeout, and the answer to request 7.
abbrev script : List Event
script =
    received 20 (record { seq = 6; ts = 1 }) noon
    ∷ alarm later
    ∷ received 12 (record { seq = 7; ts = 2 }) later
    ∷ []

dg_send_recv-Ends_example :
    let p₁ = send_again quarters noon (next_request quarters (ready quarters noon fresh)) in
    (p₁.sends ≡ p₁.sendhdr ∷ [])
    × (p₁.sendhdr.seq ≡ 7)
    × (p₁.rttinfo.nrexmt ≡ 0)
    × Ends 7 p₁ script (dg_send_recv quarters noon script fresh)
dg_send_recv-Ends_example = dg_send_recv-Ends quarters noon script fresh

-- The timestamps wrap 4294967296 milliseconds after the base.
abbrev before_wrap : Timeval
before_wrap = record { sec = 4294967; usec = 250000 }

abbrev after_wrap : Timeval
after_wrap = record { sec = 4294968; usec = 0 }

abbrev asking : Peer ℕ
asking = record {
  rttinfo = record { rtt = 0; srtt = 0; rttvar = 3; rto = 12; nrexmt = 0; base = 0 };
  rttinit = true;
  sendhdr = record { seq = 7; ts = 0 };
  sends = [];
  alarms = [];
}

abbrev late_reply : Event
late_reply = received 20 (record { seq = 6; ts = 1 }) after_wrap

await-Measures_example :
    let q = send_again quarters before_wrap asking in
    await quarters (late_reply ∷ received 12 q.sendhdr after_wrap ∷ []) q
    ≡ answered 4 (record q { rttinfo = stop quarters asking.rttinfo 750 })
await-Measures_example =
    await-Measures quarters before_wrap after_wrap 12 (late_reply ∷ []) [] asking (omega arith)
      (omega arith) (omega arith) (omega arith) (inr (λ e. absurd (omega (arith, e))), tt) refl
