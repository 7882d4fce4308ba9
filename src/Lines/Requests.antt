-- ===== src/Lines/Requests.antt =====
-- my-src/Chapter-30/web_child.c and client.c: a client asks for a number of bytes on a line, and gets
-- that many.
pub mod Numbers
pub mod Exchange
pub mod Client
use my_unp.Prelude.{
  ℕ, zero, suc, ◌+◌, ◌-◌, ◌%◌, ◌^◌, min, List, [], ◌∷◌, ◌++◌, Bool, true, false, ◌&&◌, ◌||◌, ltb,
  leb, ◌==◌, if◌then◌else◌, Option, none, some, Text, take, length, decimal, atoi_from,
}
use my_unp.Stream.Kernel.{Kernel, WriteReply, wrote, write_intr, write_error}
use my_unp.Stream.Readn.{ReadnResult, stored, read_n}
use my_unp.Stream.Readn as Readn

-- MAXN
abbrev pub maxn : ℕ
maxn = 16384

abbrev pub isspace : ℕ → Bool
isspace c = c == 32 || (leb 9 c && leb c 13)

abbrev pub skip_space : Text → Text
skip_space [] = []
skip_space (c ∷ cs) = let rest = skip_space cs in if isspace c then rest else c ∷ cs

-- What atol reads: a sign and digits, held to the range of a long of 64 bits.
pub record Long : Type 0 where
  pub negative : Bool
  pub magnitude : ℕ

unfoldable pub signed : Text → Long
signed [] = record { negative = false; magnitude = 0 }
signed (c ∷ cs) =
    if c == b'-'
    then record { negative = true; magnitude = min (atoi_from 0 cs) (2 ^ 63) }
    else record {
      negative = false;
      magnitude = min (atoi_from 0 (if c == b'+' then cs else c ∷ cs)) (2 ^ 63 - 1);
    }

abbrev pub atol : Text → Long
atol text = signed (skip_space text)

-- The long as an int of 32 bits, by its bit pattern.
unfoldable pub to_int : Long → ℕ
to_int v = if v.negative then (2 ^ 32 - v.magnitude % 2 ^ 32) % 2 ^ 32 else v.magnitude % 2 ^ 32

-- `ntowrite <= 0 || ntowrite >= MAXN`
abbrev pub refuses : ℕ → Bool
refuses ntowrite = ntowrite == 0 || leb (2 ^ 31) ntowrite || leb maxn ntowrite

-- The answer of web_child to a line, out of what is in `result`; none is err_quit.
unfoldable pub web_reply : List ℕ → Text → Option Text
web_reply result text =
    let ntowrite = to_int (atol text) in
    if refuses ntowrite then none else some (take ntowrite result)

-- `snprintf(request, sizeof(request), "%d\n", nbytes)`
unfoldable pub request : ℕ → Text
request nbytes = decimal nbytes ++ (b'\n' ∷ [])

-- One turn of a child of the client: the reply, err_quit because it was too short, or a call that
-- failed.
pub data Turn (S : Type 0) : Type 0 where
  whole : List ℕ → S → Turn S
  short : ℕ → Turn S
  write_failed : Turn S
  read_failed : ℕ → Turn S
  no_fuel : Turn S

abbrev pub got_reply : {S : Type 0} → ℕ → ReadnResult S → Turn S
got_reply nbytes (stored bs s) = if length bs == nbytes then whole bs s else short (length bs)
got_reply nbytes (Readn.failed e bs s) = read_failed e
got_reply nbytes Readn.out_of_fuel = no_fuel

abbrev pub wrote_request : {S : Type 0} → Bool → ReadnResult S → ℕ → Turn S
wrote_request true r nbytes = got_reply nbytes r
wrote_request false r nbytes = write_failed

-- The wrapper Write takes nothing but the whole of it.
abbrev pub all_written : WriteReply → ℕ → Bool
all_written (wrote n) wanted = n == wanted
all_written write_intr wanted = false
all_written (write_error e) wanted = false

-- A turn on the connected socket `s`.
unfoldable pub client_turn : {S : Type 0} → Kernel S → ℕ → S → ℕ → Turn S
client_turn k fuel s nbytes =
    let (r, s') = k.write s (request nbytes) in
    wrote_request (all_written r (length (request nbytes))) (read_n k fuel s' nbytes) nbytes

-- The loop over the turns of one child, each on a new connection: how many it has done, and whether
-- it comes to its end.
abbrev pub counted_turn : {S : Type 0} → Turn S → ℕ × Bool → ℕ × Bool
counted_turn (whole bs s) rest = (suc rest.0, rest.1)
counted_turn (short n) rest = (0, false)
counted_turn write_failed rest = (0, false)
counted_turn (read_failed e) rest = (0, false)
counted_turn no_fuel rest = (0, false)

unfoldable pub client_loop : {S : Type 0} → Kernel S → ℕ → ℕ → List S → ℕ × Bool
client_loop k fuel nbytes [] = (0, true)
client_loop k fuel nbytes (s ∷ connections) =
    counted_turn (client_turn k fuel s nbytes) (client_loop k fuel nbytes connections)
