-- ===== src/Urgent/Tests.antt =====
-- Runs of the two receivers, and the theorems at them.
use my_unp.Prelude.{◌≡◌, refl, [], ◌∷◌, true, false}
use my_unp.Urgent.{
  oob_read, normal_read, Receiver, Kernel, running, start, run, round, select, oob_stage,
  normal_stage, then_run, round_always,
}
use my_unp.Urgent.Order.{Spaced, Orderly, run-start-Orderly, round_always_repeats}

abbrev urgent : Kernel
urgent = record { readable = false; exceptional = true; recv_count = 1; read_count = 0 }

abbrev data_came : Kernel
data_came = record { readable = true; exceptional = true; recv_count = 1; read_count = 3 }

two_urgent :
    run (urgent ∷ urgent ∷ data_came ∷ []) start
    ≡ running (record {
      justreadoob = false;
      rset = true;
      xset = false;
      log = oob_read 1 ∷ normal_read 3 ∷ [];
    })
unfolding run round select oob_stage normal_stage
two_urgent = refl

run-start-Orderly_example : Orderly (run (urgent ∷ data_came ∷ urgent ∷ []) start)
run-start-Orderly_example = run-start-Orderly (urgent ∷ data_came ∷ urgent ∷ [])

urgent_repeats :
    (t : Receiver) × (then_run (round_always urgent) (round_always urgent start) ≡ running t)
    × ¬ (Spaced false t.log)
urgent_repeats = round_always_repeats urgent urgent start (refl, refl) (refl, refl)
