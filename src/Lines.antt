-- ===== src/Lines.antt =====
-- Servers that read a line and write an answer, until the client closes: the loop that
-- my-src/Chapter-30/web_child.c is an instance of.
pub mod Answers
pub mod Session
pub mod Echo
pub mod Requests
mod Tests
use my_unp.Prelude.{ℕ, zero, suc, List, Option, none, some, Text}
use my_unp.Stream.Kernel.{Kernel}
use my_unp.Stream.Readline.{maxline, Buffered, Readline, line, fail, out_of_fuel, readline}
use my_unp.Stream.Writen.{WritenResult, written, writen}
use my_unp.Stream.Writen as Writen

-- The child of one connection returns, ends at err_quit, or in the wrapper of a call that failed; or
-- it is out of the rounds given.
pub data Served (S : Type 0) : Type 0 where
  closed : S → Served S
  refused : S → Served S
  io_failed : S → Served S
  no_rounds : Served S

abbrev pub after_write : {S : Type 0} → WritenResult S → List ℕ → (Buffered S → Served S) → Served S
after_write (written c s) ready next = next (record { ready = ready; stream = s })
after_write (Writen.failed s) ready next = io_failed s
after_write Writen.out_of_fuel ready next = no_rounds

module _ {S : Type 0} (k : Kernel S) (fuel : ℕ) (reply : Text → Option Text) where
  -- Writen of the answer, or err_quit.
  abbrev pub answer_line : Option Text → Buffered S → (Buffered S → Served S) → Served S
  answer_line none st next = refused st.stream
  answer_line (some bs) st next = after_write (writen k fuel st.stream bs) st.ready next

  -- Readline has returned: 0 is the end.
  abbrev pub on_line : Readline S → (Buffered S → Served S) → Served S
  on_line (line zero text st) next = closed st.stream
  on_line (line (suc n) text st) next = answer_line (reply text) st next
  on_line (fail text st) next = io_failed st.stream
  on_line out_of_fuel next = no_rounds

  -- `for ( ; ; )`
  unfoldable pub serve_loop : ℕ → Buffered S → Served S
  serve_loop zero st = no_rounds
  serve_loop (suc rounds) st = on_line (readline k fuel maxline st) (serve_loop rounds)
