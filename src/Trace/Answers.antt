-- ===== src/Trace/Answers.antt =====
-- Which packet recv_v4 takes for the answer, and that it reads no byte that was not received.
pub mod Waiting
use my_unp.Prelude.{
  ℕ, zero, suc, ◌+◌, ◌*◌, ◌%◌, ◌≤◌, ◌<◌, ◌≡◌, refl, ◌∙◌, sym, ap, List, [], ◌∷◌, ◌++◌, Bool, true,
  false, ◌&&◌, not, ltb, leb, ◌==◌, if◌then◌else◌, Option, none, some, length, get_elem?, get_or,
  ◌⊎◌, inl, inr, arith,
}
use my_unp.Trace.{
  Reply, timeout, intermediate, destination, unreachable, Verdict, answer, next_packet, Ports,
  Checked, ◌>>=◌, header_length, check_ports, check_inner, check_icmp, check_packet, Received,
  packet, interrupted, failed, Arrival, Outcome, returned, quits, waiting, overrun, unless_alarm,
  judged, turn, recv_v4,
}

abbrev pub byte : List ℕ → ℕ → ℕ
byte bs i = get_or bs i 0

abbrev pub icmp_at : List ℕ → ℕ
icmp_at bs = header_length (byte bs 0)

abbrev pub inner_at : List ℕ → ℕ
inner_at bs = icmp_at bs + 8

abbrev pub udp_at : List ℕ → ℕ
udp_at bs = inner_at bs + header_length (byte bs (inner_at bs))

-- The packet has an ICMP header, the IP header behind it, and the ports behind that.
abbrev pub long_enough : List ℕ → Bool
long_enough bs = leb (icmp_at bs + 28) (length bs) && leb (udp_at bs + 4) (length bs)

-- The datagram in error is the UDP probe with that number.
abbrev pub on_probe : Ports → ℕ → List ℕ → Bool
on_probe p seq bs =
    byte bs (inner_at bs + 9) == 17
    && (256 * byte bs (udp_at bs) + byte bs (udp_at bs + 1) == p.sport % 65536)
    && (256 * byte bs (udp_at bs + 2) + byte bs (udp_at bs + 3) == (p.dport + seq) % 65536)

-- What the type and the code of the ICMP header say.
abbrev pub said : ℕ → ℕ → Verdict
said icmp_type icmp_code =
    if icmp_type == 11 && icmp_code == 0
    then answer intermediate
    else (if icmp_type == 3
        then answer (if icmp_code == 3 then destination else unreachable icmp_code)
        else next_packet)

-- What a packet means for a probe.
unfoldable pub verdict : Ports → ℕ → List ℕ → Verdict
verdict p seq bs =
    if long_enough bs && on_probe p seq bs
    then said (byte bs (icmp_at bs)) (byte bs (icmp_at bs + 1))
    else next_packet

get_elem?-inside : (bs : List ℕ) (i : ℕ) → i < length bs → get_elem? bs i ≡ some (byte bs i)
get_elem?-inside [] i h = absurd (omega arith)
get_elem?-inside (b ∷ bs) zero h = refl
get_elem?-inside (b ∷ bs) (suc i) h = get_elem?-inside bs i (omega arith)

check_ports-reads :
    (p : Ports) (seq : ℕ) (bs : List ℕ) (r : Reply)
    → icmp_at bs + 28 ≤ length bs
    → udp_at bs + 4 ≤ length bs
    → check_ports p seq bs (inner_at bs) (udp_at bs) r
      ≡ some (if on_probe p seq bs then answer r else next_packet)
unfolding check_ports
check_ports-reads p seq bs r h k = rw (
  get_elem?-inside bs (inner_at bs + 9) (omega arith),
  get_elem?-inside bs (udp_at bs) (omega arith),
  get_elem?-inside bs (udp_at bs + 1) (omega arith),
  get_elem?-inside bs (udp_at bs + 2) (omega arith),
  get_elem?-inside bs (udp_at bs + 3) (omega arith),
)

too_short_inner : (bs : List ℕ) → ltb (length bs) (inner_at bs + 20) ≡ true → long_enough bs ≡ false
too_short_inner bs h = rw (beyond (icmp_at bs) (length bs) h)
  where
    beyond : (a n : ℕ) → ltb n (a + 8 + 20) ≡ true → leb (a + 28) n ≡ false
    beyond a n q = ground arith

too_short_ports : (bs : List ℕ) → ltb (length bs) (udp_at bs + 4) ≡ true → long_enough bs ≡ false
too_short_ports bs h = go (leb (icmp_at bs + 28) (length bs))
  where
    beyond : (a n : ℕ) → ltb n (a + 4) ≡ true → leb (a + 4) n ≡ false
    beyond a n q = ground arith

    go : (b : Bool) → (b && leb (udp_at bs + 4) (length bs)) ≡ false
    go true = beyond (udp_at bs) (length bs) h
    go false = refl

long_both :
    (bs : List ℕ)
    → ltb (length bs) (inner_at bs + 20) ≡ false
    → ltb (length bs) (udp_at bs + 4) ≡ false
    → (icmp_at bs + 28 ≤ length bs) × (udp_at bs + 4 ≤ length bs) × (long_enough bs ≡ true)
long_both bs h k = (first, second, rw (within first) (within second))
  where
    room : (a n : ℕ) → ltb n (a + 8 + 20) ≡ false → a + 28 ≤ n
    room a n q = ground arith

    room_ports : (a n : ℕ) → ltb n (a + 4) ≡ false → a + 4 ≤ n
    room_ports a n q = ground arith

    within : {a n : ℕ} → a ≤ n → leb a n ≡ true
    within {a} {n} q = ground arith

    first : icmp_at bs + 28 ≤ length bs
    first = room (icmp_at bs) (length bs) h

    second : udp_at bs + 4 ≤ length bs
    second = room_ports (udp_at bs) (length bs) k

check_inner-reads :
    (p : Ports) (seq : ℕ) (bs : List ℕ) (r : Reply)
    → check_inner p seq bs (inner_at bs) r
      ≡ some (if long_enough bs && on_probe p seq bs then answer r else next_packet)
unfolding check_inner
check_inner-reads p seq bs r =
    go (ltb (length bs) (inner_at bs + 20)) refl (ltb (length bs) (udp_at bs + 4)) refl
  where
    here : (a n : ℕ) → ltb n (a + 8 + 20) ≡ false → a + 8 < n
    here a n q = ground arith

    go :
        (a : Bool)
        → ltb (length bs) (inner_at bs + 20) ≡ a
        → (b : Bool) → ltb (length bs) (udp_at bs + 4) ≡ b
        → (if a
            then some next_packet
            else get_elem? bs (inner_at bs) >>= λ h.
                let hlen2 = header_length h in
                if ltb (length bs) (inner_at bs + hlen2 + 4)
                then some next_packet
                else check_ports p seq bs (inner_at bs) (inner_at bs + hlen2) r)
          ≡ some (if long_enough bs && on_probe p seq bs then answer r else next_packet)
    go true e b f = rw (too_short_inner bs e)
    go false e true f = rw (
      get_elem?-inside bs (inner_at bs) (here (icmp_at bs) (length bs) e),
      f,
      too_short_ports bs f,
    )
    go false e false f =
        let (h, k, long) = long_both bs e f in
        rw (get_elem?-inside bs (inner_at bs) (here (icmp_at bs) (length bs) e), f, long)
          (check_ports-reads p seq bs r h k)

check_icmp-reads :
    (p : Ports) (seq : ℕ) (bs : List ℕ) (icmp_type icmp_code : ℕ)
    → check_icmp p seq bs (inner_at bs) icmp_type icmp_code
      ≡ some (if long_enough bs && on_probe p seq bs then said icmp_type icmp_code else next_packet)
unfolding check_icmp
check_icmp-reads p seq bs icmp_type icmp_code =
    go (icmp_type == 11 && icmp_code == 0) (icmp_type == 3)
  where
    nothing_said : (b : Bool) → some next_packet ≡ some (if b then next_packet else next_packet)
    nothing_said true = refl
    nothing_said false = refl

    go :
        (a b : Bool)
        → (if a
            then check_inner p seq bs (inner_at bs) intermediate
            else (if b
                then check_inner p seq bs
                    (inner_at bs)
                    (if icmp_code == 3 then destination else unreachable icmp_code)
                else some next_packet))
          ≡ some (
              if long_enough bs && on_probe p seq bs
              then (if a
                  then answer intermediate
                  else (if b
                      then answer (if icmp_code == 3 then destination else unreachable icmp_code)
                      else next_packet))
              else next_packet)
    go true b = check_inner-reads p seq bs intermediate
    go false true =
        check_inner-reads p seq bs (if icmp_code == 3 then destination else unreachable icmp_code)
    go false false = nothing_said (long_enough bs && on_probe p seq bs)

-- A packet that has a first byte is judged without a read outside it.
pub check_packet-reads :
    (p : Ports) (seq : ℕ) (bs : List ℕ)
    → 0 < length bs
    → check_packet p seq bs ≡ some (verdict p seq bs)
unfolding check_packet verdict
check_packet-reads p seq bs some_bytes =
    rw (get_elem?-inside bs 0 some_bytes) (go (ltb (length bs) (icmp_at bs + 8)) refl)
  where
    beyond : (a n : ℕ) → ltb n (a + 8) ≡ true → leb (a + 28) n ≡ false
    beyond a n q = ground arith

    room : (a n : ℕ) → ltb n (a + 8) ≡ false → a + 8 ≤ n
    room a n q = ground arith

    go :
        (a : Bool)
        → ltb (length bs) (icmp_at bs + 8) ≡ a
        → (if a
            then some next_packet
            else get_elem? bs (icmp_at bs) >>= λ icmp_type.
                get_elem? bs (icmp_at bs + 1) >>= λ icmp_code.
                check_icmp p seq bs (inner_at bs) icmp_type icmp_code)
          ≡ some (
              if long_enough bs && on_probe p seq bs
              then said (byte bs (icmp_at bs)) (byte bs (icmp_at bs + 1))
              else next_packet)
    go true e = rw (beyond (icmp_at bs) (length bs) e)
    go false e =
        let long = room (icmp_at bs) (length bs) e in
        rw
          (
            get_elem?-inside bs (icmp_at bs) (omega arith),
            get_elem?-inside bs (icmp_at bs + 1) (omega arith),
          )
          (check_icmp-reads p seq bs (byte bs (icmp_at bs)) (byte bs (icmp_at bs + 1)))
