-- ===== src/Ping.antt =====
-- origin-src/unpv13e/ping: send_v4.c and proc_v4.c, with lib/tv_sub.c.
pub mod Times
pub mod Bytes
pub mod Data
pub mod RoundTrip
pub mod Outside
mod Tests
use my_unp.Prelude.{
  ℕ, zero, suc, ◌+◌, ◌-◌, ◌*◌, ◌/◌, ◌%◌, ◌^◌, List, [], ◌∷◌, ◌++◌, Bool, true, false, ltb, leb,
  ◌==◌, if◌then◌else◌, Option, none, some, take, drop, length, replicate, get_elem?,
}
use my_unp.Cksum.{ByteOrder, little_endian, big_endian, word, in_cksum}

-- struct timeval: two longs of 64 bits, by their bit patterns.
pub record Timeval : Type 0 where
  pub sec : ℕ
  pub usec : ℕ

abbrev pub sub64 : ℕ → ℕ → ℕ
sub64 a b = (a + (2 ^ 64 - b % 2 ^ 64)) % 2 ^ 64

-- `tv_sub(out, in)`, with what is left in `out`.
unfoldable pub tv_sub : Timeval → Timeval → Timeval
tv_sub out sent =
    let usec = sub64 out.usec sent.usec in
    if leb (2 ^ 63) usec
    then record { sec = sub64 (sub64 out.sec 1) sent.sec; usec = (usec + 1000000) % 2 ^ 64 }
    else record { sec = sub64 out.sec sent.sec; usec = usec }

-- A number of `k` bytes in memory, the lowest first or last.
unfoldable pub low_first : ℕ → ℕ → List ℕ
low_first zero n = []
low_first (suc k) n = (n % 256) ∷ low_first k (n / 256)

unfoldable pub high_first : ℕ → ℕ → List ℕ → List ℕ
high_first zero n rest = rest
high_first (suc k) n rest = high_first k (n / 256) ((n % 256) ∷ rest)

abbrev pub stored : ByteOrder → ℕ → ℕ → List ℕ
stored little_endian k n = low_first k n
stored big_endian k n = high_first k n []

abbrev pub value_low_first : List ℕ → ℕ
value_low_first [] = 0
value_low_first (b ∷ bs) = b + 256 * value_low_first bs

abbrev pub value_high_first : ℕ → List ℕ → ℕ
value_high_first n [] = n
value_high_first n (b ∷ bs) = value_high_first (256 * n + b) bs

abbrev pub loaded : ByteOrder → List ℕ → ℕ
loaded little_endian bs = value_low_first bs
loaded big_endian bs = value_high_first 0 bs

abbrev pub timeval_bytes : ByteOrder → Timeval → List ℕ
timeval_bytes o t = stored o 8 t.sec ++ stored o 8 t.usec

-- The globals that send_v4 uses, with the byte order of the host.
pub record Ping : Type 0 where
  pub order : ByteOrder
  pub pid : ℕ
  pub nsent : ℕ
  pub datalen : ℕ

-- The pattern 0xa5 over `datalen` bytes of data, and the time over the first of them.
abbrev pub icmp_data : Ping → Timeval → List ℕ
icmp_data p now = take p.datalen (timeval_bytes p.order now ++ replicate (p.datalen - 16) 165)

-- What stands behind the checksum: the identifier, the sequence number and the data.
abbrev pub behind_cksum : Ping → Timeval → List ℕ
behind_cksum p now =
    stored p.order 2 (p.pid % 2 ^ 16) ++ (stored p.order 2 (p.nsent % 2 ^ 16) ++ icmp_data p now)

-- BUFSIZE, the size of sendbuf
abbrev pub bufsize : ℕ
bufsize = 1500

-- The packet that is made in sendbuf; ICMP_ECHO is 8.
abbrev pub request : Ping → Timeval → List ℕ
request p now =
    (8 ∷ 0 ∷ stored p.order 2 (in_cksum p.order (8 ∷ 0 ∷ 0 ∷ 0 ∷ behind_cksum p now)))
    ++ behind_cksum p now

-- The packet that is sent, and `nsent++`; none where the memset writes behind sendbuf.
unfoldable pub send_v4 : Ping → Timeval → Option (List ℕ × Ping)
send_v4 p now =
    if ltb bufsize (8 + p.datalen)
    then none
    else some (request p now, record p { nsent = (p.nsent + 1) % 2 ^ 32 })

-- What proc_v4 prints of a packet: nothing, the line of a reply, or for -v the type and the code.
pub data Seen : Type 0 where
  ignored : Seen
  reply : (icmplen seq ttl : ℕ) → Timeval → Seen
  other : (icmplen icmp_type icmp_code : ℕ) → Seen

-- none is a read outside of the bytes received.
abbrev pub timeval_at : ByteOrder → List ℕ → Option Timeval
timeval_at o bs =
    if ltb (length bs) 16
    then none
    else some (record { sec = loaded o (take 8 bs); usec = loaded o (take 8 (drop 8 bs)) })

abbrev pub reply_at : Option Timeval → ℕ → ℕ → ℕ → Timeval → Option Seen
reply_at none icmplen seq ttl now = none
reply_at (some sent) icmplen seq ttl now = some (reply icmplen seq ttl (tv_sub now sent))

-- The ICMP message, of `icmplen` bytes: an echo reply (type 0) to our request, or something else.
abbrev pub proc_icmp : Ping → ℕ → ℕ → Timeval → List ℕ → Option Seen
proc_icmp p icmplen ttl now (t ∷ c ∷ _ ∷ _ ∷ i₀ ∷ i₁ ∷ s₀ ∷ s₁ ∷ bs) =
    if t == 0
    then (if word p.order i₀ i₁ == p.pid
        then (if ltb icmplen 16
            then some ignored
            else reply_at (timeval_at p.order bs) icmplen (word p.order s₀ s₁) ttl now)
        else some ignored)
    else some (other icmplen t c)
proc_icmp p icmplen ttl now _ = none

abbrev pub proc_packet : Ping → Timeval → List ℕ → Option ℕ → Option ℕ → Option ℕ → Option Seen
proc_packet p now bs (some b) (some ttl) (some proto) =
    let hlen1 = 4 * (b % 16) in
    if proto == 1
    then (if ltb (length bs) (hlen1 + 8)
        then some ignored
        else proc_icmp p (length bs - hlen1) ttl now (drop hlen1 bs))
    else some ignored
proc_packet p now bs _ _ _ = none

-- A packet received at `now`; IPPROTO_ICMP is 1.
unfoldable pub proc_v4 : Ping → Timeval → List ℕ → Option Seen
proc_v4 p now bs = proc_packet p now bs (get_elem? bs 0) (get_elem? bs 8) (get_elem? bs 9)
