-- ===== src/Talk.antt =====
-- my-src/Chapter-05/str_cli.c: the client of the echo server, a line at a time.
pub mod Plan
pub mod Follows
pub mod Whole
mod Tests
use my_unp.Prelude.{ℕ, zero, suc, List, [], ◌∷◌, ◌++◌, ◌==◌, if◌then◌else◌, Text}
use my_unp.Stream.Kernel.{Kernel}
use my_unp.Stream.Readline.{maxline, Buffered, Readline, line, fail, out_of_fuel, readline}
use my_unp.Stream.Writen.{WritenResult, written, writen}
use my_unp.Stream.Writen as Writen

-- The text up to its NUL, as strlen and Fputs see it.
abbrev pub cstr : Text → Text
cstr [] = []
cstr (c ∷ cs) = let rest = cstr cs in if c == 0 then [] else c ∷ rest

-- How str_cli ends, with what it printed: it returns, at err_quit because the server has closed, or in
-- the wrapper of a call that failed.
pub data Talked (S : Type 0) : Type 0 where
  returned : Text → S → Talked S
  server_gone : Text → S → Talked S
  io_failed : Text → S → Talked S
  no_fuel : Talked S

abbrev pub after_writen :
    {S : Type 0} → WritenResult S → List ℕ → Text → (Buffered S → Talked S) → Talked S
after_writen (written c s) ready out next = next (record { ready = ready; stream = s })
after_writen (Writen.failed s) ready out next = io_failed out s
after_writen Writen.out_of_fuel ready out next = no_fuel

-- Readline has returned: 0 is the end of the stream, anything else is printed.
abbrev pub after_readline :
    {S : Type 0} → Readline S → Text → (Buffered S → Text → Talked S) → Talked S
after_readline (line zero text st) out next = server_gone out st.stream
after_readline (line (suc n) text st) out next = next st (out ++ cstr text)
after_readline (fail text st) out next = io_failed out st.stream
after_readline out_of_fuel out next = no_fuel

-- The loop over the lines that Fgets gives until the end of the input.
unfoldable pub str_cli : {S : Type 0} → Kernel S → ℕ → List Text → Buffered S → Text → Talked S
str_cli k fuel [] st out = returned out st.stream
str_cli k fuel (l ∷ ls) st out =
    after_writen (writen k fuel st.stream (cstr l)) st.ready out
      (λ st'. after_readline (readline k fuel maxline st') out (str_cli k fuel ls))
