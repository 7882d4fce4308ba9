-- ===== src/Sock/Tests.antt =====
-- Runs of the sock tool's parts, and the theorems at them.
use my_unp.Prelude.{◌≡◌, refl, List, [], ◌∷◌, true, false, some, Text, codes, arith}
use my_unp.Sock.Crlf.{add_char, strip_char, crlf_add, crlf_strip}
use my_unp.Sock.Crlf.Conversion.{crlf_strip-crlf_add}
use my_unp.Sock.Loop.{
  Options, Answers, start, breaks, select, input_read, on_socket, input_part, socket_stage, round,
  loop,
}
use my_unp.Sock.Loop.Transfer.{loop-start-Passes}
use my_unp.Sock.Pattern.{skip, pattern_loop, pattern}
use my_unp.Sock.Loop.Stages.{Passes, SomeFails}

abbrev two_lines : Text
two_lines = codes "ab\nc\n"

abbrev two_lines_sent : Text
two_lines_sent = codes "ab\r\nc\r\n"

crlf_add_run : crlf_add 8 two_lines ≡ some (7, two_lines_sent)
unfolding crlf_add add_char
crlf_add_run = refl

crlf_strip-crlf_add_example : crlf_strip 6 two_lines_sent ≡ some (5, two_lines)
crlf_strip-crlf_add_example =
    crlf_strip-crlf_add 8 6 7 two_lines two_lines_sent (refl, (refl, (refl, (refl, (refl, _)))))
      (omega arith) crlf_add_run

abbrev options : Options
options = record { halfclose = true; crlf = true; udp = false; server = false; writelen = 1024 }

-- A line typed; the end of stdin; the echo; the end of the server's stream.
abbrev session : List Answers
session = from_input two_lines ∷ from_input [] ∷ from_socket two_lines_sent ∷ from_socket [] ∷ []
  where
    from_input : Text → Answers
    from_input bs = record {
      select_ok = true;
      input_ready = true;
      socket_ready = false;
      read_input = some bs;
      shutdown_ok = true;
      write_socket_ok = true;
      read_socket = some [];
      write_stdout_ok = true;
    }

    from_socket : Text → Answers
    from_socket bs = record {
      select_ok = true;
      input_ready = false;
      socket_ready = true;
      read_input = some [];
      shutdown_ok = true;
      write_socket_ok = true;
      read_socket = some bs;
      write_stdout_ok = true;
    }

session-loop :
    loop options session start
    ≡ breaks (record {
      stdineof = true;
      rset_input = false;
      rset_socket = true;
      shutdowns = 1;
      from_stdin = two_lines;
      to_socket = two_lines_sent;
      from_socket = two_lines_sent;
      to_stdout = two_lines;
    })
unfolding loop round select input_part socket_stage input_read on_socket crlf_add crlf_strip
    add_char strip_char
session-loop = refl

loop-start-Passes_example : Passes (SomeFails options session) options (loop options session start)
loop-start-Passes_example = loop-start-Passes options session

pattern_run : pattern 34 3 ≡ some (codes " !\"")
unfolding pattern pattern_loop skip
pattern_run = refl
