-- ===== src/Trace/Tests.antt =====
-- A wait of traceroute, and the theorem at it.
use my_unp.Prelude.{ℕ, ◌≡◌, refl, List, [], ◌∷◌, ◌++◌, false, replicate, arith}
use my_unp.Trace.{
  destination, Ports, packet, interrupted, Arrival, returned, recv_v4, check_packet, check_icmp,
  check_inner, check_ports,
}
use my_unp.Trace.Answers.Waiting.{Waits, recv_v4-Waits}

abbrev ports : Ports
ports = record { sport = 32769; dport = 32768 }

-- A port unreachable for probe 5, which went from UDP port 32769 to 32773.
abbrev from_destination : List ℕ
from_destination =
    69 ∷ replicate 19 0
    ++ (3 ∷ 3 ∷ replicate 6 0)
    ++ (69 ∷ replicate 8 0)
    ++ (17 ∷ replicate 10 0)
    ++ (128 ∷ 1 ∷ 128 ∷ 5 ∷ [])

-- A short packet and a signal first.
abbrev arrivals : List Arrival
arrivals =
    record { received = packet (69 ∷ []); alarm = false }
    ∷ record { received = interrupted; alarm = false }
    ∷ record { received = packet from_destination; alarm = false }
    ∷ []

recv_v4_run : recv_v4 ports 5 arrivals ≡ returned destination
unfolding recv_v4 check_packet check_icmp check_inner check_ports
recv_v4_run = refl

recv_v4-Waits_example : Waits ports 5 arrivals (recv_v4 ports 5 arrivals)
recv_v4-Waits_example = recv_v4-Waits ports 5 arrivals (omega arith, (tt, (omega arith, tt)))
