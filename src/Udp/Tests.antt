-- ===== src/Udp/Tests.antt =====
-- The datagram client with its server, and with a datagram from elsewhere.
use my_unp.Prelude.{◌≡◌, refl, List, [], ◌∷◌, ◌++◌, Text, arith}
use my_unp.Udp.{Datagram, dg_echo, finished, dg_cli}
use my_unp.Udp.Echoes.{datagrams, from, texts, strings, dg_cli-dg_echo, dg_cli-lags}

abbrev two_lines : List Text
two_lines = (b'a' ∷ b'\n' ∷ []) ∷ (b'b' ∷ b'\n' ∷ []) ∷ []

echoed_lines :
    dg_cli
      (10 ∷ 1 ∷ [])
      two_lines
      (from (10 ∷ 1 ∷ []) (dg_echo (datagrams (10 ∷ 2 ∷ []) two_lines)))
    ≡ record { sends = strings two_lines; prints = texts two_lines; why = finished }
echoed_lines = dg_cli-dg_echo (10 ∷ 1 ∷ []) (10 ∷ 2 ∷ []) two_lines (omega arith, (omega arith, tt))

abbrev alien : Datagram
alien = record { address = 10 ∷ 3 ∷ []; payload = b'x' ∷ [] }

lagging_run :
    (dg_cli (10 ∷ 1 ∷ []) two_lines (alien ∷ datagrams (10 ∷ 1 ∷ []) two_lines)).prints
    ≡ b'a' ∷ b'\n' ∷ []
unfolding dg_cli datagrams
lagging_run = refl

dg_cli-lags_example :
    dg_cli (10 ∷ 1 ∷ []) (two_lines ++ ((b'c' ∷ []) ∷ [])) (
      alien
      ∷ from (10 ∷ 1 ∷ []) (dg_echo (datagrams (10 ∷ 2 ∷ []) (two_lines ++ ((b'c' ∷ []) ∷ [])))))
    ≡ record {
      sends = strings (two_lines ++ ((b'c' ∷ []) ∷ []));
      prints = texts two_lines;
      why = finished;
    }
dg_cli-lags_example =
    dg_cli-lags (10 ∷ 1 ∷ []) (10 ∷ 2 ∷ []) two_lines (b'c' ∷ []) alien
      (omega arith, (omega arith, (omega arith, tt))) refl
