-- ===== src/Icmpd.antt =====
-- origin-src/unpv13e/icmpd: the daemon that hands ICMP errors to the clients whose UDP sockets caused
-- them.
pub mod Packet
pub mod Table
pub mod Routes
mod Tests
use my_unp.Prelude.{
  ℕ, zero, suc, ◌+◌, ◌-◌, List, [], ◌∷◌, ◌++◌, Bool, true, false, ◌&&◌, ltb, leb, ◌==◌,
  if◌then◌else◌, Option, none, some, length, get_or, set, take, replicate, FdSet, fd_put,
}
use my_unp.Icmpd.Packet.{IcmpDatagram, IcmpdErr, Read, too_short, other, from_udp, read_v4, af_inet}

-- A free entry (connfd -1) is `none`.
pub record Client : Type 0 where
  pub connfd : Option ℕ
  pub family : ℕ
  pub lport : ℕ

abbrev pub unused : Client
unused = record { connfd = none; family = 0; lport = 0 }

-- What was written to a client: "1", "0", or an icmpd_err.
pub data Message : Type 0 where
  all_ok : Message
  error_occurred : Message
  icmp_error : IcmpdErr → Message

-- The globals, `top` being maxi + 1, and the calls of Write and Close so far.
pub record Icmpd : Type 0 where
  pub fd4 : ℕ
  pub listenfd : ℕ
  pub client : List Client
  pub top : ℕ
  pub maxfd : ℕ
  pub allset : FdSet
  pub nready : ℕ
  pub written : List (ℕ × Message)
  pub closed : List ℕ

-- What Read_fd gives: end of file, maybe with a descriptor; data without one; or a descriptor.
pub data ReadFd : Type 0 where
  client_ended : Option ℕ → ReadFd
  no_descriptor : ReadFd
  passed : ℕ → ReadFd

-- What the kernel answers on a client that is ready: getsockname gives the family and the port (0 if
-- unbound), and sock_bind_wild a port.
pub record Conn : Type 0 where
  pub read_fd : ReadFd
  pub sockname : Option (ℕ × ℕ)
  pub bind_wild : Option ℕ

pub record Kernel : Type 0 where
  pub nready : ℕ
  pub ready : FdSet
  pub accept : ℕ
  pub recvfrom : IcmpDatagram
  pub conn : ℕ → Conn

-- main up to its loop, without IPv6.
unfoldable pub init : ℕ → ℕ → ℕ → Icmpd
init fd_setsize fd4 listenfd = record {
  fd4 = fd4;
  listenfd = listenfd;
  client = replicate fd_setsize unused;
  top = 0;
  maxfd = if ltb fd4 listenfd then listenfd else fd4;
  allset = fd_put listenfd true (fd_put fd4 true (λ x. false));
  nready = 0;
  written = [];
  closed = [];
}

abbrev pub client_at : ℕ → Icmpd → Client
client_at i s = get_or s.client i unused

abbrev pub first_if_free : ℕ → Option ℕ → Option ℕ → Option ℕ
first_if_free i none behind = some i
first_if_free i (some _) behind = behind

-- The first free entry from `i` on.
unfoldable pub find_available : ℕ → List Client → Option ℕ
find_available i [] = none
find_available i (c ∷ cs) = first_if_free i c.connfd (find_available (i + 1) cs)

-- `client[i].connfd = fd`, which leaves the family and the port.
abbrev pub with_connfd : Option ℕ → Client → Client
with_connfd fd c = record c { connfd = fd }

-- The new descriptor saved in the entry found, or closed.
abbrev pub save_client : ℕ → Icmpd → Option ℕ → Icmpd
save_client connfd s none = record s { closed = s.closed ++ (connfd ∷ []); nready = s.nready - 1 }
save_client connfd s (some i) = record s {
  client = set s.client i (with_connfd (some connfd) (client_at i s));
  allset = fd_put connfd true s.allset;
  maxfd = if ltb s.maxfd connfd then connfd else s.maxfd;
  top = if ltb s.top (i + 1) then i + 1 else s.top;
  nready = s.nready - 1;
}

unfoldable pub readable_listen : ℕ → Icmpd → Icmpd
readable_listen connfd s = save_client connfd s (find_available 0 s.client)

abbrev pub with_some : Option ℕ → List ℕ → List ℕ
with_some none xs = xs
with_some (some x) xs = xs ++ (x ∷ [])

-- `clientdone:`
abbrev pub client_done : ℕ → ℕ → Option ℕ → Icmpd → Icmpd
client_done i unixfd recvfd s = record s {
  client = set s.client i (with_connfd none (client_at i s));
  allset = fd_put unixfd false s.allset;
  nready = s.nready - 1;
  closed = with_some recvfd (s.closed ++ (unixfd ∷ []));
}

abbrev pub write_to : ℕ → Message → Icmpd → Icmpd
write_to fd m s = record s { written = s.written ++ ((fd, m) ∷ []) }

-- `clienterr:`
abbrev pub client_err : ℕ → ℕ → Option ℕ → Icmpd → Icmpd
client_err i unixfd recvfd s = client_done i unixfd recvfd (write_to unixfd error_occurred s)

abbrev pub with_address : ℕ → ℕ → Client → Client
with_address family lport c = record c { family = family; lport = lport }

abbrev pub registered : ℕ → ℕ → Icmpd → Icmpd
registered unixfd recvfd s =
    let w = write_to unixfd all_ok s in
    record w { closed = w.closed ++ (recvfd ∷ []); nready = w.nready - 1 }

abbrev pub at_address : ℕ → ℕ → ℕ → Icmpd → Icmpd
at_address i family lport s = record s {
  client = set s.client i (with_address family lport (client_at i s));
}

-- -1 as an int of 32 bits, which is no port.
abbrev pub minus_one : ℕ
minus_one = 4294967295

-- The port of the socket is known, or sock_bind_wild answers.
abbrev pub known_port : ℕ → ℕ → ℕ → ℕ → ℕ → Option ℕ → Icmpd → Icmpd
known_port i unixfd recvfd family (suc lport) wild s =
    registered unixfd recvfd (at_address i family (suc lport) s)
known_port i unixfd recvfd family zero (some (suc lport)) s =
    registered unixfd recvfd (at_address i family (suc lport) s)
known_port i unixfd recvfd family zero (some zero) s =
    client_err i unixfd (some recvfd) (at_address i family zero s)
known_port i unixfd recvfd family zero none s =
    client_err i unixfd (some recvfd) (at_address i family minus_one s)

abbrev pub named_socket : ℕ → ℕ → ℕ → Option (ℕ × ℕ) → Option ℕ → Icmpd → Icmpd
named_socket i unixfd recvfd none wild s = client_err i unixfd (some recvfd) s
named_socket i unixfd recvfd (some a) wild s = known_port i unixfd recvfd a.0 a.1 wild s

abbrev pub answer_client : ℕ → ℕ → ReadFd → Conn → Icmpd → Icmpd
answer_client i unixfd (client_ended recvfd) k s = client_done i unixfd recvfd s
answer_client i unixfd no_descriptor k s = client_err i unixfd none s
answer_client i unixfd (passed recvfd) k s = named_socket i unixfd recvfd k.sockname k.bind_wild s

unfoldable pub readable_conn : ℕ → ℕ → Conn → Icmpd → Icmpd
readable_conn i unixfd k s = answer_client i unixfd k.read_fd k s

-- The test of the loop over the clients in readable_v4.
abbrev pub asked_by : ℕ → Client → Option ℕ
asked_by sport c = if c.family == af_inet && c.lport == sport then c.connfd else none

abbrev pub send_if : Option ℕ → IcmpdErr → List (ℕ × Message) → List (ℕ × Message)
send_if none e rest = rest
send_if (some fd) e rest = (fd, icmp_error e) ∷ rest

-- The loop, over the entries up to maxi: what it writes.
unfoldable pub route_loop : ℕ → IcmpdErr → List Client → List (ℕ × Message)
route_loop sport e [] = []
route_loop sport e (c ∷ cs) = send_if (asked_by sport c) e (route_loop sport e cs)

-- none is err_quit.
abbrev pub deliver : Read → Icmpd → Option Icmpd
deliver too_short s = none
deliver other s = some (record s { nready = s.nready - 1 })
deliver (from_udp sport e) s = some (record s {
  written = s.written ++ route_loop sport e (take s.top s.client);
  nready = s.nready - 1;
})

unfoldable pub readable_v4 : IcmpDatagram → Icmpd → Option Icmpd
readable_v4 d s = deliver (read_v4 d) s

-- The loop of main over the clients, with `rounds` entries to go.
unfoldable pub conn_loop : Kernel → FdSet → ℕ → ℕ → Icmpd → Icmpd
conn_loop k rset zero i s = s
conn_loop k rset (suc rounds) i s = elim (client_at i s).connfd [
  | none ↦ conn_loop k rset rounds (i + 1) s
  | some sockfd ↦ elim (rset sockfd) [
    | false ↦ conn_loop k rset rounds (i + 1) s
    | true ↦
        let s' = readable_conn i sockfd (k.conn i) s in
        elim s'.nready [ zero ↦ s' | suc _ ↦ conn_loop k rset rounds (i + 1) s' ]
  ]
]

-- `if (... <= 0) continue;`
abbrev pub or_next : ℕ → Icmpd → (Icmpd → Option Icmpd) → Option Icmpd
or_next zero s f = some s
or_next (suc _) s f = f s

abbrev pub after_v4 : Option Icmpd → (Icmpd → Option Icmpd) → Option Icmpd
after_v4 none f = none
after_v4 (some s) f = or_next s.nready s f

unfoldable pub v4_stage : Kernel → FdSet → Icmpd → Option Icmpd
v4_stage k rset s =
    let conns : Icmpd → Option Icmpd = λ t. some (conn_loop k rset t.top 0 t) in
    if rset s.fd4 then after_v4 (readable_v4 k.recvfrom s) conns else conns s

-- One round of `for ( ; ; )`; none is err_quit.
unfoldable pub round : Kernel → Icmpd → Option Icmpd
round k s =
    let rset : FdSet = λ x. s.allset x && k.ready x in
    let s₀ = record s { nready = k.nready } in
    if rset s.listenfd
    then (let s₁ = readable_listen k.accept s₀ in or_next s₁.nready s₁ (v4_stage k rset))
    else v4_stage k rset s₀
