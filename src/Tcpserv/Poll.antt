-- ===== src/Tcpserv/Poll.antt =====
-- my-src/Chapter-06/tcpsrvpoll01.c: the table of clients and one round of the loop over poll.
pub mod Serve
pub mod Table
use my_unp.Prelude.{
  ℕ, zero, suc, ◌+◌, ◌-◌, List, [], ◌∷◌, ◌++◌, Bool, true, false, ltb, leb, if◌then◌else◌, Option,
  none, some, length, get_or, set, take, replicate,
}

-- `struct pollfd`: an fd (-1 is `none`), and whether POLLRDNORM is asked for.
pub record Pollfd : Type 0 where
  pub fd : Option ℕ
  pub events : Bool

abbrev pub available : Pollfd
available = record { fd = none; events = false }

-- What the server does to a client in a slot.
pub data Event : Type 0 where
  echoed : ℕ → ℕ → List ℕ → Event
  closed : ℕ → ℕ → Event

-- The locals of main, with a log of what was done to the clients.
pub record Server : Type 0 where
  pub client : List Pollfd
  pub maxi : ℕ
  pub log : List Event

-- What read on a connection hands back: bytes ([] at end of file), ECONNRESET, another errno.
pub data Reply : Type 0 where
  got : List ℕ → Reply
  reset : Reply
  read_error : Reply

-- What poll, accept, read and Writen answer in one round. Writen takes all, or fails behind some of the
-- bytes.
pub record Kernel : Type 0 where
  pub nready : ℕ
  pub revents : ℕ → Bool
  pub connfd : ℕ
  pub read : ℕ → Reply
  pub writen : ℕ → Option ℕ

pub data Outcome : Type 0 where
  running : Server → Outcome
  too_many_clients : Outcome
  failed : Server → Outcome

-- A client served, or err_sys.
pub data Served : Type 0 where
  served : Server → Served
  fails : Server → Served

-- The table before the loop: the listening socket, and OPEN_MAX - 1 free slots.
unfoldable pub init : ℕ → ℕ → Server
init open_max listenfd = record {
  client = record { fd = some listenfd; events = true } ∷ replicate (open_max - 1) available;
  maxi = 0;
  log = [];
}

-- A slot whose fd is negative is taken, else one that is found behind it.
abbrev pub take_if_free : ℕ → Option ℕ → Option ℕ → Option ℕ
take_if_free i none behind = some i
take_if_free i (some _) behind = behind

-- The first slot from `i` on whose fd is negative.
unfoldable pub find_free : ℕ → List Pollfd → Option ℕ
find_free i [] = none
find_free i (p ∷ ps) = take_if_free i (p.fd) (find_free (i + 1) ps)

abbrev pub clients_from_one : List Pollfd → List Pollfd
clients_from_one [] = []
clients_from_one (_ ∷ ps) = ps

-- The new descriptor saved in the slot found, if any.
abbrev pub accept_at : ℕ → Server → Option ℕ → Option Server
accept_at connfd s none = none
accept_at connfd s (some i) = some (record s {
  client = set s.client i (record { fd = some connfd; events = true });
  maxi = if ltb s.maxi i then i else s.maxi;
})

-- The branch of a readable listening socket; `none` is "too many clients".
unfoldable pub accept_client : ℕ → Server → Option Server
accept_client connfd s = accept_at connfd s (find_free 1 (clients_from_one s.client))

-- Writen of what was read.
abbrev pub echo : Option ℕ → ℕ → ℕ → List ℕ → Server → Served
echo none i fd bs s = served (record s { log = s.log ++ (echoed i fd bs ∷ []) })
echo (some n) i fd bs s = fails (record s { log = s.log ++ (echoed i fd (take n bs) ∷ []) })

-- One readable client.
unfoldable pub serve_client : Reply → Option ℕ → ℕ → ℕ → Server → Served
serve_client (got []) w i fd s = served (record s {
  client = set s.client i (record (get_or s.client i available) { fd = none });
  log = s.log ++ (closed i fd ∷ []);
})
serve_client (got (b ∷ bs)) w i fd s = echo w i fd (b ∷ bs) s
serve_client reset w i fd s = served (record s {
  client = set s.client i (record (get_or s.client i available) { fd = none });
  log = s.log ++ (closed i fd ∷ []);
})
serve_client read_error w i fd s = fails s

-- `for (i = 1; i < maxi; i++)`, with `rounds` slots to go: the count of ready descriptors goes down
-- with each one served, and the loop stops at 0.
unfoldable pub serve_loop : Kernel → ℕ → ℕ → ℕ → Server → Outcome
serve_loop k zero i nready s = running s
serve_loop k (suc rounds) i nready s = elim (get_or s.client i available).fd [
  | none ↦ serve_loop k rounds (i + 1) nready s
  | some fd ↦ elim (k.revents i) [
    | false ↦ serve_loop k rounds (i + 1) nready s
    | true ↦ elim (serve_client (k.read fd) (k.writen fd) i fd s) [
      | fails s' ↦ failed s'
      | served s' ↦ elim (leb nready 1) [
        | true ↦ running s'
        | false ↦ serve_loop k rounds (i + 1) (nready - 1) s'
      ]
    ]
  ]
]

abbrev pub serve_clients : Kernel → ℕ → Server → Outcome
serve_clients k nready s = serve_loop k (s.maxi - 1) 1 nready s

-- One round of `for ( ; ; )`.
unfoldable pub round : Kernel → Server → Outcome
round k s =
    if k.revents 0
    then elim (accept_client k.connfd s) [
      | none ↦ too_many_clients
      | some s' ↦ if leb k.nready 1 then running s' else serve_clients k (k.nready - 1) s'
    ]
    else serve_clients k k.nready s
