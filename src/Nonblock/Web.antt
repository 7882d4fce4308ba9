-- ===== src/Nonblock/Web.antt =====
-- origin-src/unpv13e/nonblock/web.c, start_connect.c and write_get_cmd.c: a web client that connects
-- to the server for several files at a time, over nonblocking sockets.
pub mod Watched
mod Tests
use my_unp.Prelude.{
  FdSet, fd_put, ℕ, zero, suc, ◌+◌, ◌-◌, List, [], ◌∷◌, Bool, true, false, ◌&&◌, ◌||◌, ltb,
  if◌then◌else◌, Option, none, some, length, get_or, set, replicate,
}

-- f_flags: 0, F_CONNECTING, F_READING, F_DONE.
pub data Status : Type 0 where
  unused connecting reading done : Status

-- `struct file`: f_flags and f_fd.
pub record WebFile : Type 0 where
  pub flags : Status
  pub fd : ℕ

abbrev pub untouched : WebFile
untouched = record { flags = unused; fd = 0 }

-- The globals.
pub record Globals : Type 0 where
  pub file : List WebFile
  pub nconn : ℕ
  pub nlefttoconn : ℕ
  pub nlefttoread : ℕ
  pub maxfd : ℕ
  pub rset : FdSet
  pub wset : FdSet

-- What the nonblocking connect of a new socket answers: 0, EINPROGRESS, or another error.
pub data Connect : Type 0 where
  connected in_progress connect_error : Connect

-- A new socket, with the answer of its connect, and whether a Writen at once succeeds.
pub record Socket : Type 0 where
  pub fd : ℕ
  pub connect : Connect
  pub write_ok : Bool

-- What Select, Read (which is at end of file, or ends the process at an error) and Writen answer.
pub record Kernel : Type 0 where
  pub readable : ℕ → Bool
  pub writable : ℕ → Bool
  pub read_fails : ℕ → Bool
  pub eof : ℕ → Bool
  pub write_ok : ℕ → Bool

unfoldable pub begin : ℕ → Globals
begin nfiles = record {
  file = replicate nfiles untouched;
  nconn = 0;
  nlefttoconn = nfiles;
  nlefttoread = nfiles;
  maxfd = 0;
  rset = λ x. false;
  wset = λ x. false;
}

abbrev pub first_unused : Status → Option ℕ → Option ℕ
first_unused unused behind = some 0
first_unused connecting none = none
first_unused connecting (some i) = some (suc i)
first_unused reading none = none
first_unused reading (some i) = some (suc i)
first_unused done none = none
first_unused done (some i) = some (suc i)

-- The first file with f_flags 0.
unfoldable pub next_file : List WebFile → Option ℕ
next_file [] = none
next_file (f ∷ fs) = first_unused (f.flags) (next_file fs)

abbrev pub raise : ℕ → ℕ → ℕ
raise maxfd fd = if ltb maxfd fd then fd else maxfd

-- The GET command is written: the file is now read from; `none` where Writen ends the process.
abbrev pub write_get_cmd : Bool → ℕ → ℕ → Globals → Option Globals
write_get_cmd false i fd w = none
write_get_cmd true i fd w = some (record w {
  file = set w.file i (record { flags = reading; fd = fd });
  rset = fd_put fd true w.rset;
  maxfd = raise w.maxfd fd;
})

-- start_connect for file `i`, by the answer of connect.
abbrev pub start_connect : Connect → Bool → ℕ → ℕ → Globals → Option Globals
start_connect connect_error ok i fd w = none
start_connect connected ok i fd w = write_get_cmd ok i fd w
start_connect in_progress ok i fd w = some (record w {
  file = set w.file i (record { flags = connecting; fd = fd });
  rset = fd_put fd true w.rset;
  wset = fd_put fd true w.wset;
  maxfd = raise w.maxfd fd;
})

abbrev pub count_conn : Option Globals → Option Globals
count_conn none = none
count_conn (some w) = some (record w { nconn = w.nconn + 1; nlefttoconn = w.nlefttoconn - 1 })

-- One round of the inner while; `none` ends the process.
abbrev pub connect_file : Socket → Option ℕ → Globals → Option Globals
connect_file s none w = none
connect_file s (some i) w = count_conn (start_connect s.connect s.write_ok i s.fd w)

-- A file that connects and is ready: its error is only printed, and the GET command is written.
abbrev pub on_connected : Kernel → ℕ → ℕ → Globals → Option Globals
on_connected k i fd w =
    write_get_cmd (k.write_ok fd) i fd (record w { wset = fd_put fd false w.wset })

-- A file that is read from and readable: an error ends the process, and at its end it is done.
abbrev pub on_readable : Bool → Bool → ℕ → ℕ → Globals → Option Globals
on_readable true at_end i fd w = none
on_readable false false i fd w = some w
on_readable false true i fd w = some (record w {
  file = set w.file i (record { flags = done; fd = fd });
  rset = fd_put fd false w.rset;
  nconn = w.nconn - 1;
  nlefttoread = w.nlefttoread - 1;
})

-- The body of the loop behind Select, at file `i`; `rs` and `ws` are what Select left.
abbrev pub check_file : Kernel → FdSet → FdSet → ℕ → Status → ℕ → Globals → Option Globals
check_file k rs ws i unused fd w = some w
check_file k rs ws i done fd w = some w
check_file k rs ws i connecting fd w = if rs fd || ws fd then on_connected k i fd w else some w
check_file k rs ws i reading fd w =
    if rs fd then on_readable (k.read_fails fd) (k.eof fd) i fd w else some w

abbrev pub and_then : Option Globals → (Globals → Option Globals) → Option Globals
and_then none f = none
and_then (some w) f = f w

-- `for (i = 0; i < nfiles; i++)`, with `rounds` files to go.
unfoldable pub check_files : Kernel → FdSet → FdSet → ℕ → ℕ → Globals → Option Globals
check_files k rs ws zero i w = some w
check_files k rs ws (suc rounds) i w =
    and_then
      (check_file k rs ws i ((get_or w.file i untouched).flags) ((get_or w.file i untouched).fd) w)
      (check_files k rs ws rounds (i + 1))

-- Select and the loop behind it.
unfoldable pub select_stage : Kernel → Globals → Option Globals
select_stage k w =
    check_files k (λ x. w.rset x && k.readable x) (λ x. w.wset x && k.writable x) (length w.file) 0
      w

-- A round of the inner while, under its conditions, on the socket that the kernel makes.
unfoldable pub connect_stage : ℕ → Socket → Globals → Option Globals
connect_stage maxnconn s w =
    if ltb w.nconn maxnconn && ltb 0 w.nlefttoconn
    then connect_file s (next_file w.file) w
    else some w
