-- ===== src/Tcpserv/Tests.antt =====
-- Runs of the two multiplexing servers, and the theorems at them.
use my_unp.Prelude.{
  fd_put, ℕ, ◌<◌, ◌≡◌, refl, [], ◌∷◌, true, false, none, some, arith, get_or, ◌==◌,
}
use my_unp.Tcpserv.Poll.{init, available, Server, Kernel, got, accept_client, round}
use my_unp.Tcpserv.Poll.Serve.{Spares, Ends, round_skips_last}
use my_unp.Tcpserv.Select
use my_unp.Tcpserv.Select.{find_free}
use my_unp.Tcpserv.Select.Sets
use my_unp.Tcpserv.Select.Sets.Rounds.{begin, later, Reach-Tabled}
use my_unp.Tcpserv.Poll.Table.{Inv, Accepts, accept_client-Accepts, round-Inv}

-- Two clients in slots 1 and 2; only the last is readable.
abbrev two_clients : Server
two_clients = record {
  client =
      record { fd = some 3; events = true }
      ∷ record { fd = some 4; events = true }
      ∷ record { fd = some 5; events = true }
      ∷ available
      ∷ [];
  maxi = 2;
  log = [];
}

two_clients-Inv : Inv 3 two_clients
two_clients-Inv = record { room = omega arith; listening = refl; free_behind = behind }
  where
    behind : (j : ℕ) → 2 < j → (get_or two_clients.client j available).fd ≡ none
    behind j h = ground arith

abbrev last_readable : Kernel
last_readable = record {
  nready = 1;
  revents = λ i. i == 2;
  connfd = 9;
  read = λ fd. got (65 ∷ []);
  writen = λ fd. none;
}

last_is_skipped : Ends (Spares 2 two_clients) (round last_readable two_clients)
last_is_skipped = round_skips_last last_readable two_clients refl (omega arith)

third_accepted : Accepts 3 9 two_clients (accept_client 9 two_clients)
third_accepted = accept_client-Accepts 3 9 two_clients two_clients-Inv

round-Inv_example :
    Ends (Inv 3) (round last_readable two_clients) × ((open_max : ℕ) → Inv 3 (init open_max 3))
round-Inv_example = round-Inv 3 last_readable two_clients two_clients-Inv

-- The select server with room for two clients: a connection comes on descriptor 4.
abbrev connects : Select.Kernel
connects = record {
  nready = 1;
  ready = λ fd. fd == 3;
  connfd = 4;
  read = λ fd. some [];
  write_ok = λ fd. true;
}

abbrev one_client : Select.Server
one_client = record {
  client = some 4 ∷ none ∷ [];
  top = 1;
  maxfd = 4;
  allset = fd_put 4 true (fd_put 3 true (λ x. false));
  log = [];
}

connects_run : Select.round 3 connects (Select.init 2 3) ≡ Select.running one_client
unfolding Select.round Select.init Select.accept_client Select.find_free
connects_run = refl

unused : (Select.init 2 3).allset 4 ≡ false
unfolding Select.init
unused = refl

Reach-Tabled_example : Sets.Inv 3 one_client
Reach-Tabled_example = Reach-Tabled 2 3 (later connects one_client begin unused connects_run)
