-- ===== src/Icmpd/Packet.antt =====
-- origin-src/unpv13e/icmpd/readable_v4.c: what is read out of a datagram of the raw ICMP socket.
use my_unp.Prelude.{ℕ, ◌+◌, ◌*◌, ◌%◌, List, [], ◌∷◌, Bool, ◌||◌, ltb, ◌==◌, if◌then◌else◌, get_or}

abbrev pub af_inet : ℕ
af_inet = 2

-- `buf`, of which Recvfrom has filled the first `n` bytes.
pub record IcmpDatagram : Type 0 where
  pub buf : List ℕ
  pub n : ℕ

pub data Errno : Type 0 where
  ehostunreach : Errno
  econnrefused : Errno
  emsgsize : Errno

-- `struct icmpd_err`, with the address and the port of icmpd_dest.
pub record IcmpdErr : Type 0 where
  pub icmpd_type : ℕ
  pub icmpd_code : ℕ
  pub dest_addr : List ℕ
  pub dest_port : ℕ
  pub icmpd_errno : Errno

abbrev pub byte : IcmpDatagram → ℕ → ℕ
byte d i = get_or d.buf i 0

-- `ip_hl << 2`, of the IP header at `o`.
abbrev pub header_length : IcmpDatagram → ℕ → ℕ
header_length d o = 4 * (byte d o % 16)

abbrev pub port_at : IcmpDatagram → ℕ → ℕ
port_at d o = 256 * byte d o + byte d (o + 1)

-- The errno for a type and a code: 3 is ICMP_UNREACH, with ICMP_UNREACH_PORT 3 and
-- ICMP_UNREACH_NEEDFRAG 4.
unfoldable pub errno_of : ℕ → ℕ → Errno
errno_of icmp_type icmp_code =
    if icmp_type == 3
    then (if icmp_code == 3
        then econnrefused
        else (if icmp_code == 4 then emsgsize else ehostunreach))
    else ehostunreach

-- err_quit; nothing for any client; or an error on a datagram of a UDP port.
pub data Read : Type 0 where
  too_short : Read
  other : Read
  from_udp : ℕ → IcmpdErr → Read

-- ICMP_UNREACH, ICMP_TIMXCEED or ICMP_SOURCEQUENCH.
abbrev pub is_error : ℕ → Bool
is_error icmp_type = icmp_type == 3 || icmp_type == 11 || icmp_type == 4

-- The header of the datagram in error, at `hip`; 17 is IPPROTO_UDP.
unfoldable pub read_inner : IcmpDatagram → ℕ → ℕ → ℕ → Read
read_inner d hip icmp_type icmp_code =
    let udp = hip + header_length d hip in
    if byte d (hip + 9) == 17
    then from_udp (port_at d udp) (record {
      icmpd_type = icmp_type;
      icmpd_code = icmp_code;
      dest_addr =
          byte d (hip + 16) ∷ byte d (hip + 17) ∷ byte d (hip + 18) ∷ byte d (hip + 19) ∷ [];
      dest_port = port_at d (udp + 2);
      icmpd_errno = errno_of icmp_type icmp_code;
    })
    else other

unfoldable pub read_v4 : IcmpDatagram → Read
read_v4 d =
    let hlen1 = header_length d 0 in
    let icmp_type = byte d hlen1 in
    if ltb d.n (hlen1 + 8)
    then too_short
    else (if is_error icmp_type
        then (if ltb d.n (hlen1 + 8 + 20 + 8)
            then too_short
            else read_inner d (hlen1 + 8) icmp_type (byte d (hlen1 + 1)))
        else other)
