-- ===== src/Web.antt =====
-- origin-src/unpv13e/threads/web03.c: a web client with a thread for each file, of which so many run
-- at a time. The threads tell main of their end by a counter under a mutex.
pub mod Counters
pub mod Deadlock
mod Tests
use my_unp.Prelude.{
  ℕ, zero, suc, ◌+◌, ◌-◌, List, [], ◌∷◌, Bool, true, false, ◌&&◌, ltb, if◌then◌else◌, Option, none,
  some, length, get_or, set, replicate,
}

-- f_flags: 0, F_CONNECTING, F_READING, F_DONE, F_JOINED.
pub data Flags : Type 0 where
  unused connecting reading done joined : Flags

-- Where the file's thread is in do_get_read: not created, before and behind write_get_cmd, behind
-- `f_flags = F_DONE` but not yet in the mutex, and behind the mutex.
pub data Thread : Type 0 where
  absent getting receiving marked terminated : Thread

pub record File : Type 0 where
  pub flags : Flags
  pub thread : Thread

-- Where main is: at the outer while, the inner one, in Pthread_cond_wait, at file i of the loop that
-- joins (which holds ndone_mutex), in exit, or in err_quit for no file found.
pub data Place : Type 0 where
  outer inner waiting : Place
  scanning : ℕ → Place
  finished nothing_found : Place

pub record Web : Type 0 where
  pub files : List File
  pub nconn : ℕ
  pub nlefttoconn : ℕ
  pub nlefttoread : ℕ
  pub ndone : ℕ
  pub place : Place

abbrev pub untouched : File
untouched = record { flags = unused; thread = absent }

unfoldable pub start : ℕ → Web
start nfiles = record {
  files = replicate nfiles untouched;
  nconn = 0;
  nlefttoconn = nfiles;
  nlefttoread = nfiles;
  ndone = 0;
  place = outer;
}

abbrev pub here_or_behind : Flags → Option ℕ → Option ℕ
here_or_behind unused behind = some 0
here_or_behind connecting none = none
here_or_behind connecting (some i) = some (suc i)
here_or_behind reading none = none
here_or_behind reading (some i) = some (suc i)
here_or_behind done none = none
here_or_behind done (some i) = some (suc i)
here_or_behind joined none = none
here_or_behind joined (some i) = some (suc i)

-- The first file with f_flags 0.
unfoldable pub find_file : List File → Option ℕ
find_file [] = none
find_file (f ∷ fs) = here_or_behind (f.flags) (find_file fs)

-- A thread is created for the file found.
abbrev pub spawn : Web → Option ℕ → Web
spawn w none = record w { place = nothing_found }
spawn w (some i) = record w {
  files = set w.files i (record { flags = connecting; thread = getting });
  nconn = w.nconn + 1;
  nlefttoconn = w.nlefttoconn - 1;
  place = inner;
}

-- The body of the loop that joins, at file `i` with these flags and its thread there: it goes on, or
-- joins, or blocks in Pthread_join until the thread has terminated.
abbrev pub join : ℕ → Flags → Thread → Web → Option Web
join i unused t w = some (record w { place = scanning (i + 1) })
join i connecting t w = some (record w { place = scanning (i + 1) })
join i reading t w = some (record w { place = scanning (i + 1) })
join i joined t w = some (record w { place = scanning (i + 1) })
join i done absent w = none
join i done getting w = none
join i done receiving w = none
join i done marked w = none
join i done terminated w = some (record w {
  files = set w.files i (record { flags = joined; thread = terminated });
  ndone = w.ndone - 1;
  nconn = w.nconn - 1;
  nlefttoread = w.nlefttoread - 1;
  place = scanning (i + 1);
})

-- The next step of main from a place; `none` where it has ended or has to wait.
unfoldable pub main_at : ℕ → Place → Web → Option Web
main_at maxnconn outer w =
    some (if ltb 0 w.nlefttoread then record w { place = inner } else record w { place = finished })
main_at maxnconn inner w = some (
    if ltb w.nconn maxnconn && ltb 0 w.nlefttoconn
    then spawn w (find_file w.files)
    else record w { place = waiting })
main_at maxnconn waiting w = if ltb 0 w.ndone then some (record w { place = scanning 0 }) else none
main_at maxnconn (scanning i) w =
    if ltb i (length w.files)
    then join i ((get_or w.files i untouched).flags) ((get_or w.files i untouched).thread) w
    else some (record w { place = outer })
main_at maxnconn finished w = none
main_at maxnconn nothing_found w = none

abbrev pub main_step : ℕ → Web → Option Web
main_step maxnconn w = main_at maxnconn w.place w

-- Main has ndone_mutex in the loop that joins; Pthread_cond_wait gives it up.
abbrev pub holds_mutex : Place → Bool
holds_mutex p = elim p [ scanning j ↦ true | _ ↦ false ]

-- The critical section of a thread, which has to wait while main holds the mutex.
abbrev pub count_done : ℕ → Web → Option Web
count_done i w =
    if holds_mutex w.place
    then none
    else some (record w {
      files = set w.files i (record { flags = done; thread = terminated });
      ndone = w.ndone + 1;
    })

-- The next step of the thread of file `i`, from where it is.
unfoldable pub thread_at : ℕ → Thread → Web → Option Web
thread_at i absent w = none
thread_at i getting w =
    some (record w { files = set w.files i (record { flags = reading; thread = receiving }) })
thread_at i receiving w =
    some (record w { files = set w.files i (record { flags = done; thread = marked }) })
thread_at i marked w = count_done i w
thread_at i terminated w = none

abbrev pub thread_step : ℕ → Web → Option Web
thread_step i w = thread_at i ((get_or w.files i untouched).thread) w
