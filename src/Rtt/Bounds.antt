-- ===== src/Rtt/Bounds.antt =====
-- The clock's wrap does no harm to the measured times.
use my_unp.Prelude.{ℕ, ◌+◌, ◌-◌, ◌*◌, ◌/◌, ◌^◌, ◌≤◌, ◌<◌, ◌≡◌, arith}
use my_unp.Rtt.{Timeval, ts_at, sub32}

-- The milliseconds of a time.
abbrev pub millis : Timeval → ℕ
millis tv = tv.sec * 1000 + tv.usec / 1000

-- The difference of two timestamps in uint32_t is the time between them in milliseconds, if that
-- is below 2 ^ 32, whether or not the timestamps have wrapped in between.
pub ts-sub32 :
    (base : ℕ) (sent now : Timeval)
    → base ≤ 2 ^ 32
    → millis sent ≤ millis now
    → millis now - millis sent < 2 ^ 32
    → sub32 (ts_at base now) (ts_at base sent) ≡ millis now - millis sent
unfolding ts_at
ts-sub32 base sent now b order short = omega arith
