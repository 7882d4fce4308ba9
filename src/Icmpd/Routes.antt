-- ===== src/Icmpd/Routes.antt =====
-- Which clients the daemon tells of an ICMP error.
use my_unp.Prelude.{
  ℕ, zero, suc, ◌+◌, ◌≤◌, ◌<◌, ◌≡◌, ◌⊎◌, inl, inr, refl, ◌∙◌, sym, ap, ap₂, List, [], ◌∷◌, ◌++◌,
  map, Bool, true, false, ◌&&◌, ltb, ◌==◌, if◌then◌else◌, Option, none, some, take, arith,
}
use my_unp.Icmpd.Packet.{
  IcmpDatagram, IcmpdErr, Read, too_short, other, from_udp, read_v4, read_inner, af_inet, byte,
  header_length, port_at, errno_of, is_error,
}
use my_unp.Icmpd.{Client, Icmpd, Message, icmp_error, send_if, route_loop, deliver, readable_v4}
use my_unp.Icmpd.Table.{connfds}
use my_unp.Icmpd.Table.Rounds.{Reach, Reach-Table}

-- The descriptor of a connected client is listed if it asked for the port.
abbrev listed : Option ℕ → Bool → List ℕ → List ℕ
listed none b fds = fds
listed (some fd) true fds = fd ∷ fds
listed (some fd) false fds = fds

-- The connected clients whose entry in the table holds AF_INET and the port, set by this client or
-- left there by one that had the entry before, in the order of the table.
unfoldable pub recipients : ℕ → List Client → List ℕ
recipients sport [] = []
recipients sport (c ∷ cs) =
    listed c.connfd (c.family == af_inet && c.lport == sport) (recipients sport cs)

abbrev pub notices : IcmpdErr → List ℕ → List (ℕ × Message)
notices e fds = map (λ fd. (fd, icmp_error e)) fds

recipients-none :
    (sport : ℕ) (cs : List Client) → ((i : ℕ) → connfds cs i ≡ none) → recipients sport cs ≡ []
unfolding recipients
recipients-none sport [] free = refl
recipients-none sport (c ∷ cs) free = rw (free 0) (recipients-none sport cs (λ i. free (suc i)))

send_if-listed :
    (o : Option ℕ) (b : Bool) (e : IcmpdErr) (rest : List (ℕ × Message)) (fds : List ℕ)
    → rest ≡ notices e fds
    → send_if (if b then o else none) e rest ≡ notices e (listed o b fds)
send_if-listed none true e rest fds h = h
send_if-listed none false e rest fds h = h
send_if-listed (some fd) true e rest fds h = ap (λ r. (fd, icmp_error e) ∷ r) h
send_if-listed (some fd) false e rest fds h = h

route_loop-take :
    (sport : ℕ) (e : IcmpdErr) (cs : List Client) (n : ℕ)
    → ((i : ℕ) → n ≤ i → connfds cs i ≡ none)
    → route_loop sport e (take n cs) ≡ notices e (recipients sport cs)
unfolding route_loop recipients
route_loop-take sport e cs zero free =
    ap (notices e) (sym (recipients-none sport cs (λ i. free i (omega arith))))
route_loop-take sport e [] (suc n) free = refl
route_loop-take sport e (c ∷ cs) (suc n) free =
    send_if-listed c.connfd (c.family == af_inet && c.lport == sport) e
      (route_loop sport e (take n cs)) (recipients sport cs)
      (route_loop-take sport e cs n (λ i h. free (suc i) (omega arith)))

-- The parts of the datagram: the IP header, the ICMP header, and the IP header of the datagram in
-- error with the UDP header behind it.
abbrev pub icmp_at : IcmpDatagram → ℕ
icmp_at d = header_length d 0

abbrev pub inner_at : IcmpDatagram → ℕ
inner_at d = icmp_at d + 8

abbrev pub udp_at : IcmpDatagram → ℕ
udp_at d = inner_at d + header_length d (inner_at d)

-- Fewer than 8 bytes behind the IP header, or fewer than 36 for an error.
abbrev pub Short : IcmpDatagram → Type 0
Short d = (d.n < icmp_at d + 8) ⊎ (is_error (byte d (icmp_at d)) ≡ true) × (d.n < icmp_at d + 36)

-- No error, or not on a UDP datagram.
abbrev pub Silent : IcmpDatagram → Type 0
Silent d = (is_error (byte d (icmp_at d)) ≡ false) ⊎ ((byte d (inner_at d + 9) == 17) ≡ false)

abbrev pub OnUdp : IcmpDatagram → Type 0
OnUdp d =
    (is_error (byte d (icmp_at d)) ≡ true)
    × (icmp_at d + 36 ≤ d.n)
    × ((byte d (inner_at d + 9) == 17) ≡ true)

-- What the clients are told: the type and code, the destination of the datagram, and the errno.
abbrev pub error_in : IcmpDatagram → IcmpdErr
error_in d = record {
  icmpd_type = byte d (icmp_at d);
  icmpd_code = byte d (icmp_at d + 1);
  dest_addr =
      byte d (inner_at d + 16)
      ∷ byte d (inner_at d + 17)
      ∷ byte d (inner_at d + 18)
      ∷ byte d (inner_at d + 19)
      ∷ [];
  dest_port = port_at d (udp_at d + 2);
  icmpd_errno = errno_of (byte d (icmp_at d)) (byte d (icmp_at d + 1));
}

Reads : IcmpDatagram → Read → Type 0
Reads d too_short = Short d
Reads d other = Silent d
Reads d (from_udp sport e) = OnUdp d × (sport ≡ port_at d (udp_at d)) × (e ≡ error_in d)

read_inner-Reads :
    (d : IcmpDatagram)
    → is_error (byte d (icmp_at d)) ≡ true
    → icmp_at d + 36 ≤ d.n
    → Reads d (read_inner d (inner_at d) (byte d (icmp_at d)) (byte d (icmp_at d + 1)))
unfolding read_inner Reads
read_inner-Reads d wrong long = go (byte d (inner_at d + 9) == 17) refl
  where
    go :
        (b : Bool)
        → (byte d (inner_at d + 9) == 17) ≡ b
        → Reads d (if b then from_udp (port_at d (udp_at d)) (error_in d) else other)
    go true e = ((wrong, long, e), refl, refl)
    go false e = inr e

read_v4-Reads : (d : IcmpDatagram) → Reads d (read_v4 d)
unfolding read_v4 Reads
read_v4-Reads d =
    go (ltb d.n (icmp_at d + 8)) refl (is_error (byte d (icmp_at d))) refl
      (ltb d.n (icmp_at d + 8 + 20 + 8)) refl
  where
    inner : Read
    inner = read_inner d (inner_at d) (byte d (icmp_at d)) (byte d (icmp_at d + 1))

    go :
        (a : Bool)
        → ltb d.n (icmp_at d + 8) ≡ a
        → (b : Bool) → is_error (byte d (icmp_at d)) ≡ b
        → (c : Bool) → ltb d.n (icmp_at d + 8 + 20 + 8) ≡ c
        → Reads d (if a then too_short else (if b then (if c then too_short else inner) else other))
    go true e b f c g = inl (ground arith)
    go false e false f c g = inl f
    go false e true f true g = inr (f, ground arith)
    go false e true f false g = read_inner-Reads d f (ground arith)

-- What readable_v4 has done when it returns, or ends at err_quit.
abbrev pub Delivers : IcmpDatagram → Icmpd → Option Icmpd → Type 0
Delivers d s none = Short d
Delivers d s (some t) =
    (t.client ≡ s.client)
    × ((Silent d × (t.written ≡ s.written))
        ⊎ (OnUdp d
            × (t.written
                ≡ s.written ++ notices (error_in d) (recipients (port_at d (udp_at d)) s.client))))

-- In every state that the daemon reaches, readable_v4 ends at err_quit only on a datagram that is
-- too short; otherwise it leaves the table alone, and writes nothing if the datagram is no error or
-- is not on a UDP datagram; and else it tells all the connected clients whose entry in the table
-- holds AF_INET and the source port of that datagram, be they set by this client or left in the
-- entry by an earlier one, and nobody else, in the order of the table, once each.
pub readable_v4-Delivers :
    {fd_setsize fd4 listenfd : ℕ} {s : Icmpd} (d : IcmpDatagram)
    → Reach fd_setsize fd4 listenfd s
    → Delivers d s (readable_v4 d s)
unfolding readable_v4 Reads
readable_v4-Delivers {fd_setsize} {fd4} {listenfd} {s} d r = go (read_v4 d) (read_v4-Reads d)
  where
    go : (m : Read) → Reads d m → Delivers d s (deliver m s)
    go too_short h = h
    go other h = (refl, inl (h, refl))
    go (from_udp sport e) h = (
      refl,
      inr (
        h.0,
        ap (λ xs. s.written ++ xs)
            (route_loop-take sport e s.client s.top (λ i. (Reach-Table r).free_behind i)
              ∙ ap₂ (λ p q. notices q (recipients p s.client)) h.1 h.2),
      ),
    )
