-- ===== src/Ping/RoundTrip.antt =====
-- A request of ping and the reply to it.
use my_unp.Prelude.{
  ℕ, ◌+◌, ◌-◌, ◌*◌, ◌%◌, ◌^◌, ◌≤◌, ◌<◌, ◌≡◌, refl, ◌∙◌, ap, List, [], ◌∷◌, ◌++◌, true, false, ltb,
  ◌==◌, some, drop, length, length-append, replicate, get_elem?, arith,
}
use my_unp.Cksum.{ByteOrder, word, in_cksum}
use my_unp.Cksum.Verifies.{AllBytes, in_cksum-Verifies}
use my_unp.Ping.{
  Timeval, tv_sub, stored, timeval_bytes, Ping, icmp_data, behind_cksum, send_v4, request, bufsize,
  reply, proc_icmp, proc_packet, proc_v4,
}
use my_unp.Ping.Bytes.{length-stored, AllBytes-stored, AllBytes-append, short}
use my_unp.Ping.Times.{Normal, micros, tv_sub-micros}
use my_unp.Ping.Data.{
  drop-front, get_elem?-append, AllBytes-take, AllBytes-replicate, icmp_data-split,
  length-icmp_data, timeval_at-front,
}

-- An IP header of its own length, with this time to live, and with ICMP behind it.
pub record IpHeader (header : List ℕ) (ttl : ℕ) : Type 0 where
  pub first : ℕ
  pub starts : get_elem? header 0 ≡ some first
  pub length_is : length header ≡ 4 * (first % 16)
  pub ttl_at : get_elem? header 8 ≡ some ttl
  pub protocol_at : get_elem? header 9 ≡ some 1

-- The reply to a request: another type and checksum.
abbrev pub reply_to : List ℕ → ℕ → ℕ → List ℕ
reply_to packet a b = 0 ∷ 0 ∷ a ∷ b ∷ drop 4 packet

proc_icmp-reply :
    (p : Ping) (t now : Timeval) (ttl a b : ℕ)
    → p.pid < 65536
    → 16 ≤ p.datalen
    → t.sec < 2 ^ 64
    → t.usec < 2 ^ 64
    → proc_icmp p (8 + p.datalen) ttl now (0 ∷ 0 ∷ a ∷ b ∷ behind_cksum p t)
      ≡ some (reply (8 + p.datalen) (p.nsent % 2 ^ 16) ttl (tv_sub now t))
proc_icmp-reply p t now ttl a b small room h k =
    let i = short p.order (p.pid % 2 ^ 16) (omega arith) in
    let s = short p.order (p.nsent % 2 ^ 16) (omega arith) in
    let ours : (word p.order i.first i.second == p.pid) ≡ true = ground (arith, i.word_is, small) in
    let enough : ltb (8 + p.datalen) 16 ≡ false = ground (arith, room) in
    rw
      (
        i.bytes_are,
        s.bytes_are,
        ours,
        enough,
        icmp_data-split p t room,
        timeval_at-front p.order t (replicate (p.datalen - 16) 165) h k,
        s.word_is,
      )
      refl

in_cksum-short : (o : ByteOrder) (bs : List ℕ) → in_cksum o bs < 65536
unfolding in_cksum
in_cksum-short o bs = omega arith

-- The request that is sent has checksum 0.
request-Verifies :
    (p : Ping) (t : Timeval)
    → 16 ≤ p.datalen
    → 8 + p.datalen ≤ bufsize
    → AllBytes (icmp_data p t)
    → in_cksum p.order (request p t) ≡ 0
request-Verifies p t room small bytes =
    let c = short p.order cksum (in_cksum-short p.order (8 ∷ 0 ∷ 0 ∷ 0 ∷ behind_cksum p t)) in
    rw c.bytes_are (
      in_cksum-Verifies p.order 1 (8 ∷ 0 ∷ []) (behind_cksum p t) c.first c.second refl
        (omega arith, (omega arith, tt))
        (AllBytes-append (stored p.order 2 (p.pid % 2 ^ 16)) _
          (AllBytes-stored p.order 2 (p.pid % 2 ^ 16))
          (AllBytes-append (stored p.order 2 (p.nsent % 2 ^ 16)) (icmp_data p t)
            (AllBytes-stored p.order 2 (p.nsent % 2 ^ 16)) bytes))
        (omega (
          arith,
          small,
          length-append (stored p.order 2 (p.pid % 2 ^ 16))
              (stored p.order 2 (p.nsent % 2 ^ 16) ++ icmp_data p t),
          length-append (stored p.order 2 (p.nsent % 2 ^ 16)) (icmp_data p t),
          length-icmp_data p t room,
          length-stored p.order 2 (p.pid % 2 ^ 16),
          length-stored p.order 2 (p.nsent % 2 ^ 16),
        ))
        c.word_is)
  where
    cksum : ℕ
    cksum = in_cksum p.order (8 ∷ 0 ∷ 0 ∷ 0 ∷ behind_cksum p t)

AllBytes-icmp_data : (p : Ping) (t : Timeval) → AllBytes (icmp_data p t)
AllBytes-icmp_data p t =
    AllBytes-take p.datalen (timeval_bytes p.order t ++ replicate (p.datalen - 16) 165) (
      AllBytes-append (timeval_bytes p.order t) (replicate (p.datalen - 16) 165)
        (AllBytes-append (stored p.order 8 t.sec) (stored p.order 8 t.usec)
          (AllBytes-stored p.order 8 t.sec) (AllBytes-stored p.order 8 t.usec))
        (AllBytes-replicate (p.datalen - 16)))

drop-request : (p : Ping) (t : Timeval) → drop 4 (request p t) ≡ behind_cksum p t
drop-request p t =
    drop-front 2 (stored p.order 2 (in_cksum p.order (8 ∷ 0 ∷ 0 ∷ 0 ∷ behind_cksum p t)))
      (behind_cksum p t)
      (length-stored p.order 2 (in_cksum p.order (8 ∷ 0 ∷ 0 ∷ 0 ∷ behind_cksum p t)))

length-behind :
    (p : Ping) (t : Timeval) → 16 ≤ p.datalen → length (behind_cksum p t) ≡ 4 + p.datalen
length-behind p t room = omega (
  arith,
  length-append (stored p.order 2 (p.pid % 2 ^ 16))
      (stored p.order 2 (p.nsent % 2 ^ 16) ++ icmp_data p t),
  length-append (stored p.order 2 (p.nsent % 2 ^ 16)) (icmp_data p t),
  length-icmp_data p t room,
  length-stored p.order 2 (p.pid % 2 ^ 16),
  length-stored p.order 2 (p.nsent % 2 ^ 16),
)

length-request : (p : Ping) (t : Timeval) → 16 ≤ p.datalen → length (request p t) ≡ 8 + p.datalen
length-request p t room = omega (
  arith,
  length-append (stored p.order 2 (in_cksum p.order (8 ∷ 0 ∷ 0 ∷ 0 ∷ behind_cksum p t)))
      (behind_cksum p t),
  length-behind p t room,
  length-stored p.order 2 (in_cksum p.order (8 ∷ 0 ∷ 0 ∷ 0 ∷ behind_cksum p t)),
)

-- With an identifier of 16 bits and at least 16 bytes of data, that fit sendbuf with the ICMP header, in
-- both byte orders, and for two times with microseconds below a million, the sending not behind the
-- receiving: send_v4 sends a request with checksum 0, and counts it; and proc_v4 takes a packet with
-- the reply to it, behind any IP header for ICMP, as a reply with the size of the request, its
-- sequence number modulo 2 ^ 16, and the time between the two, which is exact and again has its
-- microseconds below a million.
pub proc_v4-send_v4 :
    (p : Ping) (sent now : Timeval) (header : List ℕ) (ttl a b : ℕ)
    → p.pid < 65536
    → 16 ≤ p.datalen
    → 8 + p.datalen ≤ bufsize
    → Normal sent
    → Normal now
    → micros sent ≤ micros now
    → IpHeader header ttl
    → (packet : List ℕ) × (send_v4 p sent
        ≡ some (packet, record p { nsent = (p.nsent + 1) % 2 ^ 32 }))
      × (length packet ≡ 8 + p.datalen)
      × (in_cksum p.order packet ≡ 0)
      × (proc_v4 p now (header ++ reply_to packet a b)
          ≡ some (reply (8 + p.datalen) (p.nsent % 2 ^ 16) ttl (tv_sub now sent)))
      × Normal (tv_sub now sent)
      × (micros (tv_sub now sent) + micros sent ≡ micros now)
unfolding proc_v4 send_v4
proc_v4-send_v4 p sent now header ttl a b small room fits normal_sent normal_now order ip =
    let times = tv_sub-micros now sent normal_now normal_sent order in
    let size : length message ≡ 8 + p.datalen = omega (arith, length-behind p sent room) in
    let whole : length (header ++ message) ≡ length header + (8 + p.datalen) =
      omega (arith, size, length-append header message) in
    let long : ltb (length (header ++ message)) (4 * (ip.first % 16) + 8) ≡ false =
      ground (arith, whole, ip.length_is) in
    let left : length (header ++ message) - 4 * (ip.first % 16) ≡ 8 + p.datalen =
      omega (arith, whole, ip.length_is) in
    let inside : ltb bufsize (8 + p.datalen) ≡ false = ground (arith, fits) in
    (
      request p sent,
      rw inside refl,
      length-request p sent room,
      request-Verifies p sent room fits (AllBytes-icmp_data p sent),
      ap
            (λ m.
              proc_packet p now (header ++ m) (get_elem? (header ++ m) 0)
                (get_elem? (header ++ m) 8) (get_elem? (header ++ m) 9))
            same
          ∙ rw
              (
                get_elem?-append header message 0 ip.first ip.starts,
                get_elem?-append header message 8 ttl ip.ttl_at,
                get_elem?-append header message 9 1 ip.protocol_at,
                long,
                left,
                drop-front (4 * (ip.first % 16)) header message ip.length_is,
              )
              (proc_icmp-reply p sent now ttl a b small room (omega (arith, normal_sent.0))
                (omega (arith, normal_sent.1))),
      times.0,
      times.1,
    )
  where
    message : List ℕ
    message = 0 ∷ 0 ∷ a ∷ b ∷ behind_cksum p sent

    same : reply_to (request p sent) a b ≡ message
    same = ap (λ x. 0 ∷ 0 ∷ a ∷ b ∷ x) (drop-request p sent)
