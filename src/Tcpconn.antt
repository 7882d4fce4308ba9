-- ===== src/Tcpconn.antt =====
-- my-src/Chapter-11/tcp_connect.c and tcp_listen.c: try the addresses of a host one by one.
pub mod Attempts
mod Tests
use my_unp.Prelude.{ℕ, List, [], ◌∷◌, ◌++◌, Bool, true, false, if◌then◌else◌, Option, none, some}

-- One addrinfo, with what the kernel answers for it: socket fails; or socket gives a descriptor, and
-- connect (or bind) fails or succeeds on it.
pub data Attempt : Type 0 where
  no_socket : Attempt
  refused : ℕ → Attempt
  accepted : ℕ → Attempt

-- How tcp_connect ends; with the descriptors that it closed.
pub data Connect : Type 0 where
  connected : ℕ → List ℕ → Connect
  unknown_host : Connect
  not_connected : List ℕ → Connect

unfoldable pub connect_loop : List Attempt → List ℕ → Connect
connect_loop [] closed = not_connected closed
connect_loop (no_socket ∷ res) closed = connect_loop res closed
connect_loop (refused fd ∷ res) closed = connect_loop res (closed ++ (fd ∷ []))
connect_loop (accepted fd ∷ res) closed = connected fd closed

-- The argument is what getaddrinfo hands back; `none` is an error.
unfoldable pub tcp_connect : Option (List Attempt) → Connect
tcp_connect none = unknown_host
tcp_connect (some res) = connect_loop res []

-- The variable listenfd.
pub data Listenfd : Type 0 where
  uninitialised negative : Listenfd
  fd : ℕ → Listenfd

-- How tcp_listen ends: with a descriptor, at a failed getaddrinfo, in the wrapper Listen, or at
-- `res->ai_addrlen` with res NULL.
pub data Listening : Type 0 where
  listening : Listenfd → List ℕ → Listening
  unknown_service : Listening
  listen_error : Listenfd → List ℕ → Listening
  null_dereference : Listening

-- The loop's end: whether res is NULL, listenfd, and the descriptors closed.
pub record Bound : Type 0 where
  pub found : Bool
  pub listenfd : Listenfd
  pub closed : List ℕ

unfoldable pub bind_loop : List Attempt → Listenfd → List ℕ → Bound
bind_loop [] l closed = record { found = false; listenfd = l; closed = closed }
bind_loop (no_socket ∷ res) l closed = bind_loop res negative closed
bind_loop (refused n ∷ res) l closed = bind_loop res (fd n) (closed ++ (n ∷ []))
bind_loop (accepted n ∷ res) l closed = record { found = true; listenfd = fd n; closed = closed }

-- Behind the loop: err_ret only prints where res is NULL. `listen_ok` is what listen answers on a
-- descriptor, `wants_len` that addrlenp is not NULL.
unfoldable pub after_bind : (Listenfd → Bool) → Bool → Bound → Listening
after_bind listen_ok wants_len b =
    if listen_ok b.listenfd
    then (if wants_len
        then (if b.found then listening b.listenfd b.closed else null_dereference)
        else listening b.listenfd b.closed)
    else listen_error b.listenfd b.closed

unfoldable pub tcp_listen : (Listenfd → Bool) → Bool → Option (List Attempt) → Listening
tcp_listen listen_ok wants_len none = unknown_service
tcp_listen listen_ok wants_len (some res) =
    after_bind listen_ok wants_len (bind_loop res uninitialised [])
