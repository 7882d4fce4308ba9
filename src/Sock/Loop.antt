-- ===== src/Sock/Loop.antt =====
-- origin-src/unpv13e/sock/loop.c: stdin to the socket and the socket to stdout, until an end.
pub mod Stages
pub mod Transfer
use my_unp.Prelude.{
  ℕ, zero, suc, ◌+◌, List, [], ◌∷◌, ◌++◌, Bool, true, false, ◌&&◌, Option, none, some,
  if◌then◌else◌, Text,
}
use my_unp.Sock.Crlf.{Converted, crlf_add, crlf_strip}

-- The globals of main.c that the loop reads.
pub record Options : Type 0 where
  pub halfclose : Bool
  pub crlf : Bool
  pub udp : Bool
  pub server : Bool
  pub writelen : ℕ

-- The locals, the calls of shutdown, and what went through the descriptors.
pub record Copier : Type 0 where
  pub stdineof : Bool
  pub rset_input : Bool
  pub rset_socket : Bool
  pub shutdowns : ℕ
  pub from_stdin : Text
  pub to_socket : Text
  pub from_socket : Text
  pub to_stdout : Text

-- What the kernel answers in one round: the descriptors that are ready, what a read hands over
-- (some [] at end of file and for an empty datagram, none for an error), and whether a call succeeds
-- and takes all that it is given.
pub record Answers : Type 0 where
  pub select_ok : Bool
  pub input_ready : Bool
  pub socket_ready : Bool
  pub read_input : Option Text
  pub shutdown_ok : Bool
  pub write_socket_ok : Bool
  pub read_socket : Option Text
  pub write_stdout_ok : Bool

-- Where control goes: on, to the head of the loop, behind the loop, or to err_sys or err_quit.
pub data Control : Type 0 where
  falls : Copier → Control
  continues : Copier → Control
  breaks : Copier → Control
  exits : Control

infixl 5 ◌>>=◌
abbrev pub ◌>>=◌ : Control → (Copier → Control) → Control
falls c >>= f = f c
continues c >>= f = continues c
breaks c >>= f = breaks c
exits >>= f = exits

-- The head of the next round.
abbrev pub next_round : Control → (Copier → Control) → Control
next_round (falls c) f = f c
next_round (continues c) f = f c
next_round (breaks c) f = breaks c
next_round exits f = exits

abbrev pub start : Copier
start = record {
  stdineof = false;
  rset_input = false;
  rset_socket = false;
  shutdowns = 0;
  from_stdin = [];
  to_socket = [];
  from_socket = [];
  to_stdout = [];
}

-- The FD_SETs and select.
unfoldable pub select : Answers → Copier → Control
select k c =
    if k.select_ok
    then falls (record c {
      rset_input = (if c.stdineof then c.rset_input else true) && k.input_ready;
      rset_socket = k.socket_ready;
    })
    else exits

-- The bytes that are written: as read, or converted, where none is err_quit.
abbrev pub converted : Bool → (Text → Converted) → Text → Converted
converted true conversion bs = conversion bs
converted false conversion bs = some (0, bs)

abbrev pub sends : Converted → Bool → Copier → Control
sends (some r) true c = falls (record c { to_socket = c.to_socket ++ r.1 })
sends (some r) false c = exits
sends none ok c = exits

abbrev pub prints : Converted → Bool → Copier → Control
prints (some r) true c = falls (record c { to_stdout = c.to_stdout ++ r.1 })
prints (some r) false c = exits
prints none ok c = exits

-- shutdown at the end of stdin, then FD_CLR.
abbrev pub half_closes : Bool → Copier → Control
half_closes true c =
    continues (record c { stdineof = true; shutdowns = c.shutdowns + 1; rset_input = false })
half_closes false c = exits

-- read of stdin has answered.
unfoldable pub input_read : Options → Answers → Option Text → Copier → Control
input_read o k none c = exits
input_read o k (some []) c = if o.halfclose then half_closes k.shutdown_ok c else breaks c
input_read o k (some (b ∷ bs)) c =
    sends (converted o.crlf (crlf_add o.writelen) (b ∷ bs)) k.write_socket_ok
      (record c { from_stdin = c.from_stdin ++ (b ∷ bs) })

-- The socket has answered: only without `udp && server` does an empty read end the loop.
unfoldable pub on_socket : Options → Answers → Option Text → Copier → Control
on_socket o k none c = exits
on_socket o k (some []) c =
    if o.udp && o.server
    then prints (converted o.crlf (crlf_strip o.writelen) []) k.write_stdout_ok c
    else breaks c
on_socket o k (some (b ∷ bs)) c =
    prints (converted o.crlf (crlf_strip o.writelen) (b ∷ bs)) k.write_stdout_ok
      (record c { from_socket = c.from_socket ++ (b ∷ bs) })

unfoldable pub input_part : Options → Answers → Copier → Control
input_part o k c = if c.rset_input then input_read o k k.read_input c else falls c

unfoldable pub socket_stage : Options → Answers → Copier → Control
socket_stage o k c = if c.rset_socket then on_socket o k k.read_socket c else falls c

unfoldable pub round : Options → Answers → Copier → Control
round o k c = select k c >>= input_part o k >>= socket_stage o k

-- The `for` loop, over the rounds that the kernel answers.
unfoldable pub loop : Options → List Answers → Copier → Control
loop o [] c = continues c
loop o (k ∷ ks) c = next_round (round o k c) (loop o ks)
