-- ===== src/Udp.antt =====
-- my-src/Chapter-08: dg_cli of dgcliaddr.c, which prints what comes from the server only, and the server
-- dg_echo.c.
pub mod Echoes
mod Tests
use my_unp.Prelude.{
  ℕ, zero, suc, List, [], ◌∷◌, ◌++◌, Bool, true, false, ◌&&◌, ◌==◌, ltb, if◌then◌else◌, Text, take,
  length,
}
use my_unp.Stream.Readline.{maxline}
use my_unp.Talk.{cstr}

-- A datagram, with the address at the other end.
pub record Datagram : Type 0 where
  pub address : List ℕ
  pub payload : List ℕ

-- What recvfrom puts into a buffer of MAXLINE bytes.
abbrev pub received : Datagram → List ℕ
received d = take maxline d.payload

-- The server sends back each datagram that comes, in the order in which they come.
unfoldable pub dg_echo : List Datagram → List Datagram
dg_echo [] = []
dg_echo (d ∷ ds) = record { address = d.address; payload = received d } ∷ dg_echo ds

-- `len != srvlen || memcmp(psrvaddr, preply_addr, len) != 0` is false.
abbrev pub same_address : List ℕ → List ℕ → Bool
same_address [] [] = true
same_address [] (b ∷ bs) = false
same_address (x ∷ xs) [] = false
same_address (x ∷ xs) (b ∷ bs) = let rest = same_address xs bs in (x == b) && rest

-- How the client ends: it returns at the end of its input, waits in recvfrom for ever, or writes the NUL
-- behind a full buffer.
pub data DgEnd : Type 0 where
  finished blocked overrun : DgEnd

pub record DgRun : Type 0 where
  pub sends : List Text
  pub prints : Text
  pub why : DgEnd

-- The reply is printed where the server sent it: `recvline[n] = 0` and Fputs.
abbrev pub printed : List ℕ → DgRun → DgRun
printed text rest =
    if length text == maxline
    then record { sends = []; prints = []; why = overrun }
    else record rest { prints = cstr text ++ rest.prints }

abbrev pub on_reply : List ℕ → Datagram → DgRun → DgRun
on_reply psrvaddr d rest =
    if same_address psrvaddr d.address then printed (received d) rest else rest

abbrev pub sent : Text → DgRun → DgRun
sent l rest = record rest { sends = l ∷ rest.sends }

-- The loop over the lines that Fgets gives, with the datagrams that come. The report of a reply that is
-- ignored is left out of what is printed.
unfoldable pub dg_cli : List ℕ → List Text → List Datagram → DgRun
dg_cli psrvaddr [] ds = record { sends = []; prints = []; why = finished }
dg_cli psrvaddr (l ∷ ls) [] = record { sends = cstr l ∷ []; prints = []; why = blocked }
dg_cli psrvaddr (l ∷ ls) (d ∷ ds) =
    let rest = dg_cli psrvaddr ls ds in sent (cstr l) (on_reply psrvaddr d rest)
