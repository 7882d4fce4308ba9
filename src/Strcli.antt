-- ===== src/Strcli.antt =====
-- my-src/Chapter-06/strcliselect02.c: the TCP echo client over select and shutdown.
pub mod Transfer
mod Tests
use my_unp.Prelude.{
  ℕ, zero, suc, ◌+◌, List, [], ◌∷◌, ◌++◌, Bool, true, false, ◌&&◌, if◌then◌else◌, Option, none,
  some, take,
}

-- The locals of `str_cli`, with the bytes that the last Read put into buf, the calls of Shutdown, and
-- what went through the descriptors.
pub record Client : Type 0 where
  pub stdineof : Bool
  pub rset_input : Bool
  pub rset_socket : Bool
  pub buf : List ℕ
  pub shutdowns : ℕ
  pub from_stdin : List ℕ
  pub to_socket : List ℕ
  pub from_socket : List ℕ
  pub to_stdout : List ℕ

-- What the kernel answers in one round: whether a call succeeds, the descriptors that are ready, what a
-- read hands over (some [] at end of file, none for an error), and how a write ends: with none it
-- takes all, with some n it fails behind the first n bytes.
pub record Kernel : Type 0 where
  pub select_ok : Bool
  pub input_ready : Bool
  pub socket_ready : Bool
  pub read_input : Option (List ℕ)
  pub read_socket : Option (List ℕ)
  pub write_stdout : Option ℕ
  pub write_socket : Option ℕ
  pub shutdown_ok : Bool

-- How a stage ends: on, back, at err_quit, or at err_sys in a wrapper: of a write, or of another call.
pub data Outcome : Type 0 where
  running : Client → Outcome
  returned : Client → Outcome
  terminated_prematurely : Client → Outcome
  write_failed : Client → Outcome
  call_failed : Client → Outcome

infixl 5 ◌>>=◌
abbrev pub ◌>>=◌ : Outcome → (Client → Outcome) → Outcome
running c >>= f = f c
returned c >>= f = returned c
terminated_prematurely c >>= f = terminated_prematurely c
write_failed c >>= f = write_failed c
call_failed c >>= f = call_failed c

abbrev pub start : Client
start = record {
  stdineof = false;
  rset_input = false;
  rset_socket = false;
  buf = [];
  shutdowns = 0;
  from_stdin = [];
  to_socket = [];
  from_socket = [];
  to_stdout = [];
}

-- The FD_SETs, then Select: stdin's bit is set only before its end, and else left as it is.
unfoldable pub select : Kernel → Client → Outcome
select k c =
    if k.select_ok
    then running (record c {
      rset_input = (if c.stdineof then c.rset_input else true) && k.input_ready;
      rset_socket = k.socket_ready;
    })
    else call_failed c

-- `n` bytes of a write went through, or all.
abbrev pub taken : Option ℕ → List ℕ → List ℕ
taken none bs = bs
taken (some n) bs = take n bs

abbrev pub after_write : Option ℕ → Client → Outcome
after_write none c = running c
after_write (some n) c = write_failed c

-- Read from the socket has answered.
unfoldable pub on_socket : Option (List ℕ) → Option ℕ → Client → Outcome
on_socket none w c = call_failed c
on_socket (some []) w c = if c.stdineof then returned c else terminated_prematurely c
on_socket (some (b ∷ bs)) w c = after_write w (record c {
  buf = b ∷ bs;
  from_socket = c.from_socket ++ (b ∷ bs);
  to_stdout = c.to_stdout ++ taken w (b ∷ bs);
})

unfoldable pub socket_stage : Kernel → Client → Outcome
socket_stage k c = if c.rset_socket then on_socket k.read_socket k.write_stdout c else running c

-- The end of stdin: Shutdown sends the FIN, and FD_CLR clears the bit.
abbrev pub at_end : Bool → Client → Outcome
at_end true c =
    running (record c { stdineof = true; shutdowns = c.shutdowns + 1; rset_input = false })
at_end false c = call_failed (record c { stdineof = true })

-- Read from stdin has answered.
unfoldable pub on_input : Option (List ℕ) → Option ℕ → Bool → Client → Outcome
on_input none w ok c = call_failed c
on_input (some []) w ok c = at_end ok c
on_input (some (b ∷ bs)) w ok c = after_write w (record c {
  buf = b ∷ bs;
  from_stdin = c.from_stdin ++ (b ∷ bs);
  to_socket = c.to_socket ++ taken w (b ∷ bs);
})

unfoldable pub input_stage : Kernel → Client → Outcome
input_stage k c =
    if c.rset_input then on_input k.read_input k.write_socket k.shutdown_ok c else running c

-- One round of the `for` loop.
unfoldable pub round : Kernel → Client → Outcome
round k c = select k c >>= socket_stage k >>= input_stage k

unfoldable pub run : List Kernel → Client → Outcome
run [] c = running c
run (k ∷ ks) c = round k c >>= run ks
