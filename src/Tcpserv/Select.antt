-- ===== src/Tcpserv/Select.antt =====
-- origin-src/unpv13e/tcpcliserv/tcpservselect01.c: the same server over select.
pub mod Sets
use my_unp.Prelude.{
  FdSet, fd_put, ℕ, zero, suc, ◌+◌, ◌-◌, List, [], ◌∷◌, ◌++◌, Bool, true, false, ◌&&◌, ltb, leb,
  ◌==◌, if◌then◌else◌, Option, none, some, length, get_or, set, replicate, max,
}

pub data Event : Type 0 where
  echoed : ℕ → List ℕ → Event
  closed : ℕ → Event

-- The locals of main: a free entry of client (-1) is `none`, and `top` is maxi + 1.
pub record Server : Type 0 where
  pub client : List (Option ℕ)
  pub top : ℕ
  pub maxfd : ℕ
  pub allset : FdSet
  pub log : List Event

-- What Select, Accept, Read and Writen answer in one round. Each of the wrappers ends the process
-- at an error, which is `none` for Read.
pub record Kernel : Type 0 where
  pub nready : ℕ
  pub ready : ℕ → Bool
  pub connfd : ℕ
  pub read : ℕ → Option (List ℕ)
  pub write_ok : ℕ → Bool

pub data Outcome : Type 0 where
  running : Server → Outcome
  too_many_clients : Outcome
  call_failed : Outcome

unfoldable pub init : ℕ → ℕ → Server
init fd_setsize listenfd = record {
  client = replicate fd_setsize none;
  top = 0;
  maxfd = listenfd;
  allset = fd_put listenfd true (λ x. false);
  log = [];
}

abbrev pub take_if_free : ℕ → Option ℕ → Option ℕ → Option ℕ
take_if_free i none behind = some i
take_if_free i (some _) behind = behind

-- The first entry from `i` on that is negative.
unfoldable pub find_free : ℕ → List (Option ℕ) → Option ℕ
find_free i [] = none
find_free i (c ∷ cs) = take_if_free i c (find_free (i + 1) cs)

-- The new descriptor saved in the entry found, and in the set; `none` is "too many clients".
abbrev pub accept_at : ℕ → Server → Option ℕ → Option Server
accept_at connfd s none = none
accept_at connfd s (some i) = some (record s {
  client = set s.client i (some connfd);
  allset = fd_put connfd true s.allset;
  maxfd = if ltb s.maxfd connfd then connfd else s.maxfd;
  top = if ltb s.top (i + 1) then i + 1 else s.top;
})

unfoldable pub accept_client : ℕ → Server → Option Server
accept_client connfd s = accept_at connfd s (find_free 0 s.client)

-- A client that is ready, with what Read gives and whether Writen succeeds.
abbrev pub serve_client : ℕ → ℕ → Option (List ℕ) → Bool → Server → Option Server
serve_client i fd none ok s = none
serve_client i fd (some []) ok s = some (record s {
  client = set s.client i none;
  allset = fd_put fd false s.allset;
  log = s.log ++ (closed fd ∷ []);
})
serve_client i fd (some (b ∷ bs)) true s =
    some (record s { log = s.log ++ (echoed fd (b ∷ bs) ∷ []) })
serve_client i fd (some (b ∷ bs)) false s = none

-- `for (i = 0; i <= maxi; i++)`, with `rounds` entries to go. `rset` is what Select left of allset.
unfoldable pub serve_loop : Kernel → FdSet → ℕ → ℕ → ℕ → Server → Outcome
serve_loop k rset zero i nready s = running s
serve_loop k rset (suc rounds) i nready s = elim (get_or s.client i none) [
  | none ↦ serve_loop k rset rounds (i + 1) nready s
  | some fd ↦ elim (rset fd) [
    | false ↦ serve_loop k rset rounds (i + 1) nready s
    | true ↦ elim (serve_client i fd (k.read fd) (k.write_ok fd) s) [
      | none ↦ call_failed
      | some s' ↦ elim (leb nready 1) [
        | true ↦ running s'
        | false ↦ serve_loop k rset rounds (i + 1) (nready - 1) s'
      ]
    ]
  ]
]

-- One round of `for ( ; ; )`.
unfoldable pub round : ℕ → Kernel → Server → Outcome
round listenfd k s =
    let rset : FdSet = λ x. s.allset x && k.ready x in
    if rset listenfd
    then elim (accept_client k.connfd s) [
      | none ↦ too_many_clients
      | some s' ↦
          if leb k.nready 1 then running s' else serve_loop k rset s'.top 0 (k.nready - 1) s'
    ]
    else serve_loop k rset s.top 0 k.nready s
