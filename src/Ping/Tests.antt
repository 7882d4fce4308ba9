-- ===== src/Ping/Tests.antt =====
-- A request of ping and its reply, and a reply that is too short for the time.
use my_unp.Prelude.{
  ℕ, ◌+◌, ◌*◌, ◌%◌, ◌^◌, ◌≤◌, ◌<◌, ◌≡◌, refl, List, [], ◌∷◌, ◌++◌, some, none, length, arith,
}
use my_unp.Cksum.{little_endian, in_cksum}
use my_unp.Ping.{Timeval, tv_sub, Ping, send_v4, reply, proc_v4}
use my_unp.Ping.Times.{Normal, micros}
use my_unp.Ping.RoundTrip.{IpHeader, reply_to, proc_v4-send_v4}
use my_unp.Ping.Outside.{proc_v4-outside}

abbrev ping : Ping
ping = record { order = little_endian; pid = 4660; nsent = 65537; datalen = 56 }

-- A header of 20 bytes, with 64 for the time to live.
abbrev header : List ℕ
header = 69 ∷ 0 ∷ 0 ∷ 84 ∷ 0 ∷ 0 ∷ 0 ∷ 0 ∷ 64 ∷ 1 ∷ 0 ∷ 0 ∷ 10 ∷ 0 ∷ 0 ∷ 1 ∷ 10 ∷ 0 ∷ 0 ∷ 2 ∷ []

header-IpHeader : IpHeader header 64
header-IpHeader = record {
  first = 69;
  starts = refl;
  length_is = refl;
  ttl_at = refl;
  protocol_at = refl;
}

abbrev sent : Timeval
sent = record { sec = 1000; usec = 999000 }

abbrev now : Timeval
now = record { sec = 1001; usec = 500 }

tv_sub_run : tv_sub now sent ≡ record { sec = 0; usec = 1500 }
unfolding tv_sub
tv_sub_run = refl

proc_v4-send_v4_example :
    (packet : List ℕ) × (send_v4 ping sent
      ≡ some (packet, record ping { nsent = (65537 + 1) % 2 ^ 32 }))
    × (length packet ≡ 8 + 56)
    × (in_cksum little_endian packet ≡ 0)
    × (proc_v4 ping now (header ++ reply_to packet 7 7)
        ≡ some (reply (8 + 56) (65537 % 2 ^ 16) 64 (tv_sub now sent)))
    × Normal (tv_sub now sent)
    × (micros (tv_sub now sent) + micros sent ≡ micros now)
proc_v4-send_v4_example =
    proc_v4-send_v4 ping sent now header 64 7 7 (omega arith) (omega arith) (omega arith)
      (omega arith, omega arith) (omega arith, omega arith) (omega arith) header-IpHeader

-- An echo reply to us with 8 bytes of data.
abbrev too_short : List ℕ
too_short = 0 ∷ 0 ∷ 0 ∷ 0 ∷ 52 ∷ 18 ∷ 1 ∷ 0 ∷ 1 ∷ 2 ∷ 3 ∷ 4 ∷ 5 ∷ 6 ∷ 7 ∷ 8 ∷ []

too_short_run : proc_v4 ping now (header ++ too_short) ≡ none
unfolding proc_v4
too_short_run = refl

proc_v4-outside_example :
    (4 * (69 % 16) + 16 ≤ length (header ++ too_short))
    × (length (header ++ too_short) < 4 * (69 % 16) + 24)
proc_v4-outside_example =
    proc_v4-outside ping now 69
      (0 ∷ 0 ∷ 84 ∷ 0 ∷ 0 ∷ 0 ∷ 0 ∷ 64 ∷ 1 ∷ 0 ∷ 0 ∷ 10 ∷ 0 ∷ 0 ∷ 1 ∷ 10 ∷ 0 ∷ 0 ∷ 2 ∷ too_short)
      (omega arith) too_short_run
