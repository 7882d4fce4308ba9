-- ===== src/Rtt.antt =====
-- origin-src/unpv13e/lib/rtt.c: the estimator of the round-trip time and of the retransmission
-- timeout, and its constants (lib/unprtt.h).
pub mod Float
pub mod Bounds
pub mod Exchange
mod Tests
use my_unp.Prelude.{
  ℕ, suc, ◌+◌, ◌-◌, ◌*◌, ◌/◌, ◌%◌, ◌^◌, Bool, true, false, ltb, leb, if◌then◌else◌,
}
use my_unp.Rtt.Float.{FloatOps}

-- RTT_RXTMIN, RTT_RXTMAX, RTT_MAXNREXMT
abbrev pub rxtmin : ℕ
rxtmin = 2

abbrev pub rxtmax : ℕ
rxtmax = 60

abbrev pub maxnrexmt : ℕ
maxnrexmt = 3

-- `struct rtt_info`
pub record RttInfo (F : Type 0) : Type 0 where
  pub rtt : F
  pub srtt : F
  pub rttvar : F
  pub rto : F
  pub nrexmt : ℕ
  pub base : ℕ

-- `struct timeval`
pub record Timeval : Type 0 where
  pub sec : ℕ
  pub usec : ℕ

-- The milliseconds since `base`, as a uint32_t.
unfoldable pub ts_at : ℕ → Timeval → ℕ
ts_at base tv = ((tv.sec + 2 ^ 32 - base) * 1000 + tv.usec / 1000) % 2 ^ 32

-- Subtraction of uint32_t.
abbrev pub sub32 : ℕ → ℕ → ℕ
sub32 a b = (a + 2 ^ 32 - b) % 2 ^ 32

module _ {F : Type 0} (fl : FloatOps F) where
  open fl use {of_ℕ, three_quarters, half, add, sub, mul, div, neg, lt, to_int}

  unfoldable pub minmax : F → F
  minmax rto =
      if lt rto (of_ℕ rxtmin)
      then of_ℕ rxtmin
      else if lt (of_ℕ rxtmax) rto
      then of_ℕ rxtmax
      else rto

  -- RTT_RTOCALC
  unfoldable pub rtocalc : F → F → F
  rtocalc srtt rttvar = add srtt (mul (of_ℕ 4) rttvar)

  unfoldable pub init : Timeval → RttInfo F
  init tv = record {
    rtt = of_ℕ 0;
    srtt = of_ℕ 0;
    rttvar = three_quarters;
    rto = minmax (rtocalc (of_ℕ 0) three_quarters);
    nrexmt = 0;
    base = tv.sec % 2 ^ 32;
  }

  unfoldable pub ts : RttInfo F → Timeval → ℕ
  ts r tv = ts_at r.base tv

  unfoldable pub newpack : RttInfo F → RttInfo F
  newpack r = record r { nrexmt = 0 }

  unfoldable pub start : RttInfo F → ℕ
  start r = to_int (add r.rto half)

  -- A response after `ms` milliseconds.
  unfoldable pub stop : RttInfo F → ℕ → RttInfo F
  stop r ms =
      let rtt' = div (of_ℕ ms) (of_ℕ 1000) in
      let delta = sub rtt' r.srtt in
      let srtt' = add r.srtt (div delta (of_ℕ 8)) in
      let delta' = if lt delta (of_ℕ 0) then neg delta else delta in
      let rttvar' = add r.rttvar (div (sub delta' r.rttvar) (of_ℕ 4)) in
      record r { rtt = rtt'; srtt = srtt'; rttvar = rttvar'; rto = minmax (rtocalc srtt' rttvar') }

  -- The timer went off: `true` is the result -1, time to give up.
  unfoldable pub timeout : RttInfo F → RttInfo F × Bool
  timeout r =
      (record r { rto = mul r.rto (of_ℕ 2); nrexmt = r.nrexmt + 1 }, ltb maxnrexmt (r.nrexmt + 1))
