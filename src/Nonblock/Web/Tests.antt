-- ===== src/Nonblock/Web/Tests.antt =====
-- Two files over one connection at a time: the first connects, and the GET command is written.
use my_unp.Prelude.{fd_put, ◌≡◌, refl, [], ◌∷◌, true, false, ◌==◌, some}
use my_unp.Nonblock.Web.{
  connecting, reading, untouched, Globals, in_progress, Socket, Kernel, begin, next_file,
  check_files, select_stage, connect_stage,
}
use my_unp.Nonblock.Web.Watched.{Inv}
use my_unp.Nonblock.Web.Watched.Rounds.{at_start, connects, selects, Reach-Watched}

abbrev socket : Socket
socket = record { fd = 5; connect = in_progress; write_ok = true }

abbrev trying : Globals
trying = record {
  file = record { flags = connecting; fd = 5 } ∷ untouched ∷ [];
  nconn = 1;
  nlefttoconn = 1;
  nlefttoread = 2;
  maxfd = 5;
  rset = fd_put 5 true (λ x. false);
  wset = fd_put 5 true (λ x. false);
}

-- The socket is writable.
abbrev writable : Kernel
writable = record {
  readable = λ fd. false;
  writable = λ fd. fd == 5;
  read_fails = λ fd. false;
  eof = λ fd. false;
  write_ok = λ fd. true;
}

abbrev asked : Globals
asked = record {
  file = record { flags = reading; fd = 5 } ∷ untouched ∷ [];
  nconn = 1;
  nlefttoconn = 1;
  nlefttoread = 2;
  maxfd = 5;
  rset = fd_put 5 true (fd_put 5 true (λ x. false));
  wset = fd_put 5 false (fd_put 5 true (λ x. false));
}

connect_run : connect_stage 1 socket (begin 2) ≡ some trying
unfolding connect_stage begin next_file
connect_run = refl

select_run : select_stage writable trying ≡ some asked
unfolding select_stage check_files
select_run = refl

not_in_use : (begin 2).rset 5 ≡ false
unfolding begin
not_in_use = refl

Reach-Watched_example : Inv 1 asked
Reach-Watched_example = Reach-Watched 1 2 (
    selects writable asked (connects socket trying at_start not_in_use connect_run) refl select_run)
