-- ===== src/StereoPairer/Tests.antt =====
-- Two streams with room for two frames each, and an instance of each theorem.
use perception_pipeline.Prelude.{List, [], arith, refl, ℕ, ◌+◌, ◌∷◌, ◌≡◌}
use perception_pipeline.StereoPairer.{Config, Entry}
use perception_pipeline.StereoPairer.Accounts.{run-Accounted}
use perception_pipeline.StereoPairer.Once.{
  Event, pushes_a, pushes_b, pops, run, opened_world, Accounted,
}

abbrev narrow : Config
narrow = record { tolerance_ns = 50; queue_frames = 2; hold = 1000 }

abbrev at_time : ℕ → Entry
at_time t = record {
  timestamp_ns = t;
  host_recv_ns = t + 1;
  frame_id = t;
  content = t ∷ [];
  arrived = t;
}

-- Three frames of one camera into two places, then one of the other, and three pops.
abbrev pushes_and_pops : List Event
pushes_and_pops =
    pushes_a (at_time 100)
    ∷ pushes_a (at_time 200)
    ∷ pushes_a (at_time 300)
    ∷ pushes_b (at_time 310)
    ∷ pops 400
    ∷ pops 400
    ∷ pops 400
    ∷ []

run-Accounted_example : Accounted narrow (run (opened_world narrow) pushes_and_pops)
run-Accounted_example = run-Accounted narrow pushes_and_pops (omega arith)

one_pair : (run (opened_world narrow) pushes_and_pops).pairer.paired ≡ 1
unfolding run
one_pair = refl
