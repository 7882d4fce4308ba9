-- ===== src/Icmpd/Tests.antt =====
-- A client of the daemon that comes, registers its socket and ends, with the theorems at that run.
use my_unp.Prelude.{
  ℕ, ◌≡◌, refl, [], ◌∷◌, ◌++◌, true, false, ◌==◌, none, some, replicate, FdSet, fd_put,
}
use my_unp.Icmpd.Packet.{IcmpDatagram, econnrefused, read_v4, read_inner, errno_of}
use my_unp.Icmpd.{
  unused, Icmpd, all_ok, icmp_error, ReadFd, client_ended, passed, Kernel, init, find_available,
  readable_listen, readable_conn, route_loop, readable_v4, conn_loop, v4_stage, round,
}
use my_unp.Icmpd.Table.{Tabled}
use my_unp.Icmpd.Table.Rounds.{Reach, begin, later, Reach-Table}
use my_unp.Icmpd.Routes.{Delivers, readable_v4-Delivers}

-- A port unreachable for a datagram from UDP port 4097 to port 53 of 10.0.0.1.
abbrev unreachable : IcmpDatagram
unreachable = record {
  buf =
      69 ∷ replicate 19 0
      ++ (3 ∷ 3 ∷ replicate 6 0)
      ++ (69 ∷ replicate 8 0)
      ++ (17 ∷ replicate 6 0)
      ++ (10 ∷ 0 ∷ 0 ∷ 1 ∷ 16 ∷ 1 ∷ 0 ∷ 53 ∷ 0 ∷ 0 ∷ 0 ∷ 0 ∷ []);
  n = 56;
}

-- One round in which descriptor `fd` is ready.
abbrev on : ℕ → ℕ → ReadFd → Kernel
on fd accept read_fd = record {
  nready = 1;
  ready = λ x. x == fd;
  accept = accept;
  recvfrom = unreachable;
  conn = λ i. record { read_fd = read_fd; sockname = some (2, 4097); bind_wild = none };
}

abbrev first_set : FdSet
first_set = fd_put 5 true (fd_put 4 true (fd_put 3 true (λ x. false)))

-- Descriptor 3 is the raw socket and 4 the listening one; client 5 has connected.
abbrev connected : Icmpd
connected = record {
  fd4 = 3;
  listenfd = 4;
  client = record { connfd = some 5; family = 0; lport = 0 } ∷ unused ∷ [];
  top = 1;
  maxfd = 5;
  allset = first_set;
  nready = 0;
  written = [];
  closed = [];
}

connected-Reach : Reach 2 3 4 connected
unfolding init round readable_listen find_available
connected-Reach = later begin (on 4 5 (client_ended none)) refl refl

-- It has passed its socket 9, which has port 4097.
abbrev known : Icmpd
known = record connected {
  client = record { connfd = some 5; family = 2; lport = 4097 } ∷ unused ∷ [];
  written = (5, all_ok) ∷ [];
  closed = 9 ∷ [];
}

known-Reach : Reach 2 3 4 known
unfolding round v4_stage conn_loop readable_conn
known-Reach = later connected-Reach (on 5 6 (passed 9)) refl refl

Reach-Table_example : Tabled known
Reach-Table_example = Reach-Table known-Reach

readable_v4-Delivers_example : Delivers unreachable known (readable_v4 unreachable known)
readable_v4-Delivers_example = readable_v4-Delivers unreachable known-Reach

-- Client 5 has ended, and client 6 has come into its entry, without a socket so far: its entry has
-- the port of client 5, and it is told of the error.
abbrev reused : Icmpd
reused = record known {
  client = record { connfd = some 6; family = 2; lport = 4097 } ∷ unused ∷ [];
  maxfd = 6;
  allset = fd_put 6 true (fd_put 5 false first_set);
  closed = 9 ∷ 5 ∷ [];
}

reused-Reach : Reach 2 3 4 reused
unfolding round v4_stage conn_loop readable_conn readable_listen find_available
reused-Reach =
    later (later known-Reach (on 5 6 (client_ended none)) refl refl) (on 4 6 (client_ended none))
      refl refl

stale_port :
    readable_v4 unreachable reused
    ≡ some (record reused {
      written =
          (5, all_ok)
          ∷ (
            6,
            icmp_error (record {
              icmpd_type = 3;
              icmpd_code = 3;
              dest_addr = 10 ∷ 0 ∷ 0 ∷ 1 ∷ [];
              dest_port = 53;
              icmpd_errno = econnrefused;
            }),
          )
          ∷ [];
    })
unfolding readable_v4 read_v4 read_inner errno_of route_loop
stale_port = refl
