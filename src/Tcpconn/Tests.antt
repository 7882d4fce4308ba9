-- ===== src/Tcpconn/Tests.antt =====
-- Runs of tcp_connect and tcp_listen, and the theorems at them.
use my_unp.Prelude.{◌≡◌, refl, List, [], ◌∷◌, Bool, true, false, some}
use my_unp.Tcpconn.{
  Attempt, no_socket, refused, accepted, connected, connect_loop, tcp_connect, Listenfd, fd,
  listen_error, tcp_listen,
}
use my_unp.Tcpconn.Attempts.{Connects, tcp_connect-Connects, tcp_listen_unbound}

abbrev third_works : List Attempt
third_works = refused 3 ∷ no_socket ∷ accepted 3 ∷ refused 4 ∷ []

tcp_connect_run : tcp_connect (some third_works) ≡ connected 3 (3 ∷ [])
unfolding tcp_connect connect_loop
tcp_connect_run = refl

tcp_connect-Connects_example : Connects (some third_works) (tcp_connect (some third_works))
tcp_connect-Connects_example = tcp_connect-Connects (some third_works)

-- listen fails on a descriptor that is closed.
abbrev never : Listenfd → Bool
never l = false

unbound_listens : tcp_listen never true (some (refused 3 ∷ [])) ≡ listen_error (fd 3) (3 ∷ [])
unbound_listens = tcp_listen_unbound never true (refused 3 ∷ []) tt
