-- ===== src/Sigio/Tests.antt =====
-- Runs of the SIGIO echo server, and the theorems at them.
use my_unp.Prelude.{◌≡◌, refl, [], ◌∷◌, arith, replicate}
use my_unp.Sigio.Queue.{
  Datagram, no_datagram, Queue, datagram, returned, receive_overflow, sig_io, sig_io_loop, put,
  count_read, empty,
}
use my_unp.Sigio.Queue.Contents.{Ring, Handles, sig_io-Handles, sig_io_full}
use my_unp.Sigio.System.{Echoes, Reach-Echoes}
use my_unp.Sigio.Steps.{System, main, signal, Reach, begin, later, start, main_step}

abbrev hello : Datagram
hello = record { payload = 104 ∷ 105 ∷ []; address = 7 ∷ [] }

abbrev one_queued : Queue
one_queued = record {
  dg = hello ∷ replicate 7 no_datagram;
  cntread = 0 ∷ 1 ∷ replicate 7 0;
  iget = 0;
  iput = 1;
  nqueue = 1;
}

one_signal : sig_io empty (datagram hello ∷ []) ≡ returned one_queued
unfolding sig_io sig_io_loop put count_read
one_signal = refl

empty-Ring : Ring empty 0 0
empty-Ring = record {
  slots_there = refl;
  counters_there = refl;
  from_in = omega arith;
  counts = refl;
  fits = omega arith;
  behind = refl;
}

hello_handled : Handles empty 0 0 0 (datagram hello ∷ []) (sig_io empty (datagram hello ∷ []))
hello_handled = sig_io-Handles (datagram hello ∷ []) empty 0 0 empty-Ring

abbrev full_queue : Queue
full_queue = record {
  dg = replicate 8 hello;
  cntread = replicate 9 0;
  iget = 3;
  iput = 3;
  nqueue = 8;
}

full_overflows : sig_io full_queue [] ≡ receive_overflow
full_overflows = sig_io_full [] full_queue refl

-- One signal, then the main loop up to the step of iget.
abbrev after_signal : System
after_signal = record { queue = one_queued; pc = start.pc; received = hello ∷ []; echoed = [] }

signalled : Reach after_signal
signalled = later begin (signal (datagram hello ∷ []) one_queued refl one_signal)

abbrev after_send : System
after_send = main_step (main_step after_signal)

Reach-Echoes_example : Echoes after_send
Reach-Echoes_example = Reach-Echoes (later (later signalled main) main)
