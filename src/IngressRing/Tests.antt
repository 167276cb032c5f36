-- ===== src/IngressRing/Tests.antt =====
-- An external ring of two slots, and an instance of the theorem.
use perception_pipeline.Prelude.{List, [], false, refl, true, ◌∷◌, ◌≡◌}
use perception_pipeline.IngressRing.InFlight.{Event, commits, pops, releases, asks, run}
use perception_pipeline.IngressRing.Runs.{opened}

-- Slot 1 comes before slot 0; slot 1 cannot be filled again until its copy has ended.
abbrev transport : List Event
transport =
    commits 1 700 10
    ∷ commits 0 710 10
    ∷ pops
    ∷ commits 1 720 10
    ∷ releases 1
    ∷ asks 1 false
    ∷ asks 1 true
    ∷ commits 1 730 10
    ∷ pops
    ∷ []

ready_at_the_end : (run (opened (64 ∷ 128 ∷ []) 10) transport).ring.ready ≡ 1 ∷ []
unfolding run
ready_at_the_end = refl
