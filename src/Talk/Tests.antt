-- ===== src/Talk/Tests.antt =====
-- Runs of the client of the echo server, and the theorems at them.
use my_unp.Prelude.{refl, [], ◌∷◌, arith}
use my_unp.Stream.Scripted.{
  Script, scripted, scripted-ReadLaws, scripted-WriteLaws, scripted-DuplexLaws,
}
use my_unp.Stream.Readline.{Buffered}
use my_unp.Stream.Readline.Refine.{unread}
use my_unp.Stream.Writen.{writen, write_loop}
use my_unp.Lines.Echo.{str_echo}
use my_unp.Talk.{str_cli}
use my_unp.Talk.Plan.{finished, talk, Follows}
use my_unp.Talk.Follows.{str_cli-Follows}
use my_unp.Talk.Whole.{all_of, str_cli-str_echo}

-- Two lines, and a stream with a line and a half, in short reads.
abbrev line_and_a_half : Buffered Script
line_and_a_half = record { ready = []; stream = (1 ∷ 0 ∷ 2 ∷ [], b'x' ∷ b'\n' ∷ b'y' ∷ [], []) }

str_cli-Follows_example :
    Follows scripted line_and_a_half.stream []
      (talk ((b'a' ∷ b'\n' ∷ []) ∷ (b'b' ∷ b'\n' ∷ []) ∷ []) (unread scripted line_and_a_half))
      (str_cli scripted 5000 ((b'a' ∷ b'\n' ∷ []) ∷ (b'b' ∷ b'\n' ∷ []) ∷ []) line_and_a_half [])
str_cli-Follows_example =
    str_cli-Follows scripted scripted-ReadLaws scripted-WriteLaws scripted-DuplexLaws 5000
      ((b'a' ∷ b'\n' ∷ []) ∷ (b'b' ∷ b'\n' ∷ []) ∷ []) line_and_a_half (omega arith)
      (omega arith, (omega arith, tt))

-- The server gets "a\n" and "b\n" in short reads, with a signal between them.
abbrev at_server : Script
at_server = (1 ∷ 2 ∷ 0 ∷ [], b'a' ∷ b'\n' ∷ b'b' ∷ b'\n' ∷ [], [])

abbrev at_client : Buffered Script
at_client = record { ready = []; stream = (3 ∷ 1 ∷ [], b'a' ∷ b'\n' ∷ b'b' ∷ b'\n' ∷ [], []) }

str_cli-str_echo_example :
    Follows scripted at_client.stream []
      (record {
        sends = all_of ((b'a' ∷ b'\n' ∷ []) ∷ (b'b' ∷ b'\n' ∷ []) ∷ []);
        prints = all_of ((b'a' ∷ b'\n' ∷ []) ∷ (b'b' ∷ b'\n' ∷ []) ∷ []);
        why = finished;
      })
      (str_cli scripted 5000 ((b'a' ∷ b'\n' ∷ []) ∷ (b'b' ∷ b'\n' ∷ []) ∷ []) at_client [])
unfolding str_echo writen write_loop all_of
str_cli-str_echo_example =
    str_cli-str_echo scripted scripted scripted-ReadLaws scripted-WriteLaws scripted-DuplexLaws
      scripted-ReadLaws scripted-WriteLaws scripted-DuplexLaws 5000 9
      ((b'a' ∷ b'\n' ∷ []) ∷ (b'b' ∷ b'\n' ∷ []) ∷ []) at_client at_server
      ([], [], b'a' ∷ b'\n' ∷ b'b' ∷ b'\n' ∷ []) (omega arith) (omega arith) (omega arith)
      ((refl, refl, refl), ((refl, refl, refl), tt)) refl refl refl
