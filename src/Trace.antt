-- ===== src/Trace.antt =====
-- origin-src/unpv13e/traceroute/recv_v4.c: waiting for the ICMP error on one probe of traceroute.
pub mod Answers
mod Tests
use my_unp.Prelude.{
  ℕ, zero, suc, ◌+◌, ◌*◌, ◌%◌, List, [], ◌∷◌, Bool, true, false, ◌&&◌, ltb, ◌==◌, if◌then◌else◌,
  Option, none, some, length, get_elem?,
}

-- What recv_v4 returns: -3, -2, -1, or an ICMP code.
pub data Reply : Type 0 where
  timeout : Reply
  intermediate : Reply
  destination : Reply
  unreachable : ℕ → Reply

-- One turn of the loop: a reply, or on to the next recvfrom.
pub data Verdict : Type 0 where
  answer : Reply → Verdict
  next_packet : Verdict

-- The globals, which give the ports of the probe.
pub record Ports : Type 0 where
  pub sport : ℕ
  pub dport : ℕ

-- none is a read outside the bytes received.
abbrev pub Checked : Type 0
Checked = Option Verdict

infixl 5 ◌>>=◌
abbrev pub ◌>>=◌ : Option ℕ → (ℕ → Checked) → Checked
none >>= f = none
some x >>= f = f x

abbrev pub header_length : ℕ → ℕ
header_length b = 4 * (b % 16)

-- The tests of the UDP header at `udp`; 17 is IPPROTO_UDP. All its fields are read here, where the
-- code stops at the first test that fails.
unfoldable pub check_ports : Ports → ℕ → List ℕ → ℕ → ℕ → Reply → Checked
check_ports p seq bs hip udp r = get_elem? bs (hip + 9) >>= λ proto. get_elem? bs udp >>= λ s₁.
    get_elem? bs (udp + 1) >>= λ s₀. get_elem? bs (udp + 2) >>= λ d₁.
    get_elem? bs (udp + 3) >>= λ d₀. some (
      if proto == 17
        && (256 * s₁ + s₀ == p.sport % 65536)
        && (256 * d₁ + d₀ == (p.dport + seq) % 65536)
      then answer r
      else next_packet)

-- The datagram in error, at `hip`, where `hlen1` is `hip` - 8.
unfoldable pub check_inner : Ports → ℕ → List ℕ → ℕ → Reply → Checked
check_inner p seq bs hip r =
    if ltb (length bs) (hip + 20)
    then some next_packet
    else get_elem? bs hip >>= λ b.
        let hlen2 = header_length b in
        if ltb (length bs) (hip + hlen2 + 4)
        then some next_packet
        else check_ports p seq bs hip (hip + hlen2) r

-- ICMP_TIMXCEED is 11, with ICMP_TIMXCEED_INTRANS 0; ICMP_UNREACH is 3, with ICMP_UNREACH_PORT 3.
unfoldable pub check_icmp : Ports → ℕ → List ℕ → ℕ → ℕ → ℕ → Checked
check_icmp p seq bs hip icmp_type icmp_code =
    if icmp_type == 11 && icmp_code == 0
    then check_inner p seq bs hip intermediate
    else (if icmp_type == 3
        then check_inner p seq bs hip
            (if icmp_code == 3 then destination else unreachable icmp_code)
        else some next_packet)

-- A packet that recvfrom has put into recvbuf.
unfoldable pub check_packet : Ports → ℕ → List ℕ → Checked
check_packet p seq bs = get_elem? bs 0 >>= λ b.
    let hlen1 = header_length b in
    if ltb (length bs) (hlen1 + 8)
    then some next_packet
    else get_elem? bs hlen1 >>= λ icmp_type. get_elem? bs (hlen1 + 1) >>= λ icmp_code.
        check_icmp p seq bs (hlen1 + 8) icmp_type icmp_code

-- What recvfrom does next: a packet, EINTR or another error; and whether SIGALRM comes before the
-- loop tests gotalarm again.
pub data Received : Type 0 where
  packet : List ℕ → Received
  interrupted : Received
  failed : Received

pub record Arrival : Type 0 where
  pub received : Received
  pub alarm : Bool

pub data Outcome : Type 0 where
  returned : Reply → Outcome
  quits : Outcome
  waiting : Outcome
  overrun : Outcome

-- The test of gotalarm at the head of the loop.
abbrev pub unless_alarm : Bool → Outcome → Outcome
unless_alarm true rest = returned timeout
unless_alarm false rest = rest

abbrev pub judged : Checked → Bool → Outcome → Outcome
judged none alarm rest = overrun
judged (some (answer r)) alarm rest = returned r
judged (some next_packet) alarm rest = unless_alarm alarm rest

abbrev pub turn : Ports → ℕ → Received → Bool → Outcome → Outcome
turn p seq (packet bs) alarm rest = judged (check_packet p seq bs) alarm rest
turn p seq interrupted alarm rest = unless_alarm alarm rest
turn p seq failed alarm rest = quits

-- `for ( ; ; )`, over what arrives; `waiting` is in a recvfrom to which nothing comes.
unfoldable pub recv_v4 : Ports → ℕ → List Arrival → Outcome
recv_v4 p seq [] = waiting
recv_v4 p seq (a ∷ rest) = turn p seq a.received a.alarm (recv_v4 p seq rest)
