-- ===== src/IngressRing/Runs.antt =====
-- The rest of the steps, and the runs, of an external ring.
use perception_pipeline.Prelude.{List, [], ℕ}
use perception_pipeline.IngressRing.{external, new_ring}
use perception_pipeline.IngressRing.InFlight.{World}

abbrev pub opened : List ℕ → ℕ → World
opened addresses slot_bytes = record {
  ring = new_ring addresses slot_bytes external;
  held = [];
  came = [];
  went = [];
  pending = [];
}
