-- ===== src/Lines/Tests.antt =====
-- Runs of the line server on a scripted stream, and the theorems at them.
use my_unp.Prelude.{
  ℕ, ◌≡◌, ◌≢◌, ◌<◌, ◌+◌, refl, List, [], ◌∷◌, length, Option, some, Text, replicate,
  length-replicate, print, inl, arith,
}
use my_unp.Stream.Scripted.{
  Script, scripted, scripted-ReadLaws, scripted-WriteLaws, scripted-DuplexLaws,
}
use my_unp.Stream.Readline.{Buffered}
use my_unp.Stream.Readline.Refine.{unread}
use my_unp.Lines.{serve_loop}
use my_unp.Lines.Session.{serve_loop-CarriesOut}
use my_unp.Lines.Requests.{maxn, signed, request, web_reply, to_int, atol, client_turn}
use my_unp.Lines.Requests.Exchange.{requests, blocks, web_child-CarriesOut, bad_request}
use my_unp.Lines.Echo.{str_echo, echo, str_echo-CarriesOut}
use my_unp.Lines.Requests.Client.{Gets, client_turn-Gets}
use my_unp.Lines.Answers.{line_refused, unfinished, session, CarriesOut}

abbrev two_bytes : Text → Option Text
two_bytes text = some (b'o' ∷ b'k' ∷ [])

two_bytes_short : (text bs : Text) → two_bytes text ≡ some bs → length bs + 3 < 9
two_bytes_short text bs e = let same : (b'o' ∷ b'k' ∷ []) ≡ bs = cc in rw (← same) (omega arith)

-- A client sends "a\nb", in short reads with a signal between them.
abbrev short_lines : Buffered Script
short_lines = record { ready = []; stream = (1 ∷ 0 ∷ 1 ∷ [], b'a' ∷ b'\n' ∷ b'b' ∷ [], []) }

serve_loop-CarriesOut_example :
    CarriesOut scripted short_lines.stream
      (session two_bytes 5 (unread scripted short_lines))
      (serve_loop scripted 9 two_bytes 5 short_lines)
    × ((session two_bytes 5 (unread scripted short_lines)).why ≢ unfinished)
serve_loop-CarriesOut_example =
    serve_loop-CarriesOut scripted scripted-ReadLaws scripted-WriteLaws scripted-DuplexLaws
      two_bytes 9 3 two_bytes_short (omega arith) 5 short_lines (omega arith) (omega arith)

-- Some contents of `result`.
abbrev sevens : List ℕ
sevens = replicate maxn 7

-- Requests for 3 and for 2 bytes, and one for none.
abbrev three_requests : Buffered Script
three_requests = record {
  ready = [];
  stream = (2 ∷ 0 ∷ [], b'3' ∷ b'\n' ∷ b'2' ∷ b'\n' ∷ b'0' ∷ b'\n' ∷ [], []);
}

to_int_run : to_int (atol (b' ' ∷ b'-' ∷ b'1' ∷ b'\n' ∷ [])) ≡ 4294967295
unfolding to_int signed
to_int_run = refl

-- A request for 4294967301 = 2 ^ 32 + 5 bytes is one for 5 bytes, once the long is an int.
cut_run :
    to_int (atol (b'4' ∷ b'2' ∷ b'9' ∷ b'4' ∷ b'9' ∷ b'6' ∷ b'7' ∷ b'3' ∷ b'0' ∷ b'1' ∷ b'\n' ∷ []))
    ≡ 5
unfolding to_int signed
cut_run = refl

web_child-CarriesOut_example :
    CarriesOut scripted three_requests.stream
      (record { answers = blocks sevens (3 ∷ 2 ∷ []); why = line_refused })
      (serve_loop scripted 20000 (web_reply sevens) 9 three_requests)
unfolding requests print
web_child-CarriesOut_example =
    web_child-CarriesOut scripted scripted-ReadLaws scripted-WriteLaws scripted-DuplexLaws sevens
      20000 2 9 three_requests (3 ∷ 2 ∷ []) (b'0' ∷ b'\n' ∷ []) line_refused
      (length-replicate {A = ℕ} maxn 7) (omega arith) (omega arith) refl (omega arith)
      (omega arith, omega arith, (omega arith, omega arith, tt))
      (bad_request 0 [] (inl refl) (omega arith))

-- The answer to "3\n" is there, but comes in two reads.
abbrev answer_there : Script
answer_there = (9 ∷ 2 ∷ [], (session (web_reply sevens) 9 (request 3)).answers, [])

client_turn-Gets_example :
    Gets scripted 3 sevens answer_there (client_turn scripted 9 answer_there 3)
unfolding request print
client_turn-Gets_example =
    client_turn-Gets scripted scripted-ReadLaws scripted-DuplexLaws 9 9 3 answer_there sevens
      (length-replicate {A = ℕ} maxn 7) (omega arith) (omega arith) (omega arith) refl (omega arith)

str_echo-CarriesOut_example :
    CarriesOut scripted short_lines.stream
      (echo scripted short_lines.stream)
      (str_echo scripted 5000 9 short_lines.stream)
str_echo-CarriesOut_example =
    str_echo-CarriesOut scripted scripted-ReadLaws scripted-WriteLaws scripted-DuplexLaws 5000 9
      short_lines.stream (omega arith) (omega arith)
