-- ===== src/Ping/Times.antt =====
-- The time between a request and its reply.
use my_unp.Prelude.{ℕ, ◌+◌, ◌-◌, ◌*◌, ◌%◌, ◌^◌, ◌≤◌, ◌<◌, ◌≡◌, leb, Bool-cases, inl, inr, arith}
use my_unp.Ping.{Timeval, sub64, tv_sub}

-- A time with microseconds below a million.
abbrev pub Normal : Timeval → Type 0
Normal t = (t.sec < 2 ^ 62) × (t.usec < 1000000)

abbrev pub micros : Timeval → ℕ
micros t = 1000000 * t.sec + t.usec

-- The difference of two times is normal, and it and the earlier time make the later one.
pub tv_sub-micros :
    (out sent : Timeval)
    → Normal out
    → Normal sent
    → micros sent ≤ micros out
    → Normal (tv_sub out sent) × (micros (tv_sub out sent) + micros sent ≡ micros out)
unfolding tv_sub
tv_sub-micros out sent h k order = elim (Bool-cases (leb (2 ^ 63) (sub64 out.usec sent.usec))) [
  | inl borrow ↦
      let less : out.usec < sent.usec = ground (arith, borrow, h.1, k.1) in
      let u : (sub64 out.usec sent.usec + 1000000) % 2 ^ 64 ≡ out.usec + 1000000 - sent.usec =
        omega (arith, less, h.1, k.1) in
      let s : sub64 (sub64 out.sec 1) sent.sec ≡ out.sec - 1 - sent.sec =
        omega (arith, less, h, k, order) in
      rw (borrow, tv_sub, u, s)
        ((omega (arith, h.0), omega (arith, less, h.1)), omega (arith, less, h, k, order))
  | inr kept ↦
      let more : sent.usec ≤ out.usec = ground (arith, kept, h.1, k.1) in
      let u : sub64 out.usec sent.usec ≡ out.usec - sent.usec = omega (arith, more, h.1, k.1) in
      let s : sub64 out.sec sent.sec ≡ out.sec - sent.sec = omega (arith, more, h, k, order) in
      rw (kept, tv_sub, u, s)
        ((omega (arith, h.0), omega (arith, h.1)), omega (arith, more, h, k, order))
]
