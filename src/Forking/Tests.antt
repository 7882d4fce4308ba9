-- ===== src/Forking/Tests.antt =====
-- A run of the forking server, and the theorems at it.
use my_unp.Prelude.{ℕ, ◌≡◌, ◌+◌, refl, [], ◌∷◌, true, false}
use my_unp.Forking.{
  Server, start, accepting, connected, on_accept, fork_child, close_connection, pick, child_exits,
  enter_handler, wait_turn, Reach, here, later, accepts, forks, closes, exits,
}
use my_unp.Forking.Reaping.{Tidy, count, unforked, Reach-Tidy}
use my_unp.Forking.Settling.{sig_chld, Returned, sig_chld-Settles}

-- Two connections, whose children have both ended before the one SIGCHLD is delivered.
abbrev two_ended : Server
two_ended = child_exits 0 (
    child_exits 1 (
      close_connection 5 (
        fork_child true 5 (
          on_accept (connected 5)
            (close_connection 4 (fork_child true 4 (on_accept (connected 4) start)))))))

two_ended_run : two_ended ≡ record {
  point = accepting;
  descriptors = [];
  running = [];
  zombies = 5 ∷ 4 ∷ [];
  reaped = [];
  accepted = 5 ∷ 4 ∷ [];
  pending = true;
  handling = false;
}
unfolding child_exits pick close_connection fork_child on_accept
two_ended_run = refl

two_ended-Reach : Reach two_ended
unfolding child_exits pick close_connection fork_child on_accept
two_ended-Reach =
    later
      (later
        (later
          (later
            (later
              (later (later (later here (accepts (connected 4) refl refl)) (forks true 4 refl refl))
                (closes 4 refl refl))
              (accepts (connected 5) refl refl))
            (forks true 5 refl refl))
          (closes 5 refl refl))
        (exits 1))
      (exits 0)

Reach-Tidy_example : Tidy two_ended
Reach-Tidy_example = Reach-Tidy two_ended-Reach

sig_chld-Settles_example :
    Returned two_ended (sig_chld (1 ∷ 0 ∷ 0 ∷ []) (enter_handler two_ended))
    × ((c : ℕ)
        → count c two_ended.accepted
          ≡ count c (sig_chld (1 ∷ 0 ∷ 0 ∷ []) (enter_handler two_ended)).reaped
            + count c two_ended.running
            + count c (unforked two_ended.point))
unfolding child_exits pick close_connection fork_child on_accept
sig_chld-Settles_example = sig_chld-Settles two_ended-Reach (1 ∷ 0 ∷ 0 ∷ []) refl

-- A handler that calls waitpid once leaves one of them.
one_left : (wait_turn 0 (enter_handler two_ended)).zombies ≡ 4 ∷ []
unfolding child_exits pick close_connection fork_child on_accept enter_handler wait_turn
one_left = refl
