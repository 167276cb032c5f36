-- ===== src/HostFramePool/Tests.antt =====
-- Runs of pipeline/src/host_frame_pool.cpp, and its theorems at concrete inputs.
use perception_pipeline.Prelude.{List, [], arith, none, refl, ◌∷◌, ◌≡◌}
use perception_pipeline.HostFramePool.{
  Pool, create, filled_up, acquire, pop_free, stamp, push_free, count_down,
}
use perception_pipeline.HostFramePool.World.{Event, pops, stamps, pushes, counts_down, step, run}
use perception_pipeline.HostFramePool.Exclusive.{
  IsExclusive, opened, create-IsExclusive, run-IsExclusive,
}
use perception_pipeline.HostFramePool.Whole.{Acquires, acquire-Acquires}

abbrev two : Pool
two = record (filled_up 2 16) { free = 0 ∷ 1 ∷ [] }

third_is_dropped : (acquire (acquire (acquire two 10).0 20).0 30).1 ≡ none
unfolding acquire pop_free stamp
third_is_dropped = refl

two-IsExclusive : IsExclusive 2 (opened two)
unfolding create
two-IsExclusive = create-IsExclusive 2 16 (omega arith) refl

-- Two threads take slots at the same time, and one gives its slot back.
abbrev race : List Event
race = pops ∷ pops ∷ stamps 1 10 ∷ pops ∷ stamps 0 20 ∷ pushes 1 ∷ pops ∷ counts_down ∷ []

run-IsExclusive_example : IsExclusive 2 (run (opened two) race)
unfolding step pop_free stamp push_free count_down
run-IsExclusive_example = run-IsExclusive 2 (opened two) race two-IsExclusive (omega arith)

acquire-Acquires_example : Acquires 2 two [] 10 (acquire two 10)
acquire-Acquires_example = acquire-Acquires 2 two [] 10 two-IsExclusive (omega arith)
