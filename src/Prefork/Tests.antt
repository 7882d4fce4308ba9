-- ===== src/Prefork/Tests.antt =====
-- A parent of two children, and the theorems at its first steps.
use my_unp.Prelude.{refl, [], ◌∷◌, true, false, ltb, arith}
use my_unp.Prefork.{Worker, serving, reported, Parent, Kernel, init, round, assign}
use my_unp.Prefork.Invariant.{Ends, round-Ends, Reach, begin, later, a_round, Reach-Inv}
use my_unp.Prefork.Agreement.{Inv, Honest}

abbrev one_busy : Parent
one_busy = record {
  children =
      record { busy = true; count = 1; worker = reported }
      ∷ record { busy = false; count = 0; worker = Worker.idle }
      ∷ [];
  navail = 1;
}

one_busy-Inv : Inv one_busy
one_busy-Inv = record { agree = (refl, (refl, tt)); count = refl }

-- A connection, and the byte of the first child.
abbrev both : Kernel
both = record { nsel = 2; listen_ready = true; readable = λ i. ltb i 1; pipe_eof = λ i. false }

both-Honest : Honest both 0 one_busy.children
both-Honest = (λ e f. refl, (λ e f. ground arith, tt))

round-Ends_example : Ends both one_busy true (round both one_busy)
round-Ends_example = round-Ends both one_busy one_busy-Inv both-Honest

abbrev quiet : Kernel
quiet = record { nsel = 1; listen_ready = true; readable = λ i. false; pipe_eof = λ i. false }

abbrev first_busy : Parent
first_busy = record {
  children =
      record { busy = true; count = 1; worker = serving }
      ∷ record { busy = false; count = 0; worker = Worker.idle }
      ∷ [];
  navail = 1;
}

first_round : Reach 2 first_busy
unfolding init round assign
first_round =
    later begin (a_round quiet first_busy ((λ e f. ground arith), ((λ e f. ground arith), tt)) refl)

Reach-Inv_example : Inv first_busy
Reach-Inv_example = Reach-Inv first_round
