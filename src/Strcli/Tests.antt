-- ===== src/Strcli/Tests.antt =====
-- A run of the client over select, and the theorem at it.
use my_unp.Prelude.{ℕ, ◌≡◌, refl, List, [], ◌∷◌, true, false, none, some}
use my_unp.Strcli.{
  Kernel, returned, start, select, on_socket, socket_stage, on_input, input_stage, round, run,
}
use my_unp.Strcli.Transfer.{Passes, run-start-Passes}

-- A line typed; the end of stdin; the echo; the end of the server's stream.
abbrev session : List Kernel
session = from_input (7 ∷ 8 ∷ []) ∷ from_input [] ∷ from_socket (7 ∷ 8 ∷ []) ∷ from_socket [] ∷ []
  where
    from_input : List ℕ → Kernel
    from_input bs = record {
      input_ready = true;
      socket_ready = false;
      select_ok = true;
      read_input = some bs;
      read_socket = some [];
      write_stdout = none;
      write_socket = none;
      shutdown_ok = true;
    }

    from_socket : List ℕ → Kernel
    from_socket bs = record {
      input_ready = false;
      socket_ready = true;
      select_ok = true;
      read_input = some [];
      read_socket = some bs;
      write_stdout = none;
      write_socket = none;
      shutdown_ok = true;
    }

session-run :
    run session start
    ≡ returned (record {
      stdineof = true;
      rset_input = false;
      rset_socket = true;
      buf = 7 ∷ 8 ∷ [];
      shutdowns = 1;
      from_stdin = 7 ∷ 8 ∷ [];
      to_socket = 7 ∷ 8 ∷ [];
      from_socket = 7 ∷ 8 ∷ [];
      to_stdout = 7 ∷ 8 ∷ [];
    })
unfolding run round select socket_stage on_socket input_stage on_input
session-run = refl

run-start-Passes_example : Passes (run session start)
run-start-Passes_example = run-start-Passes session
