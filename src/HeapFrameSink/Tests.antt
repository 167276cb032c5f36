-- ===== src/HeapFrameSink/Tests.antt =====
-- A sink of two slots.
use perception_pipeline.HeapFrameSink.Tidy.{run-Tidy, opened}
use perception_pipeline.HeapFrameSink.{idle, no_meta, slot_of, create, Sink}
use perception_pipeline.Ros.Replay.Slots.{FrameMeta}
use perception_pipeline.HeapFrameSink.Runs.{releases, pops, commits, run, Event, Tidy, step}
use perception_pipeline.Prelude.{List, [], refl, some, true, ℕ, ◌+◌, ◌∷◌, ◌≡◌}

abbrev frame : ℕ → FrameMeta
frame k = record { timestamp_ns = k; host_recv_ns = k + 5; frame_id = k; bytes = 10 }

abbrev two_slots : Sink
two_slots = record {
  slot_bytes = 4096;
  buffers = 1000 ∷ 2000 ∷ [];
  meta = λ i. no_meta;
  state = λ i. idle;
  ready = [];
  running = true;
}

created : create (1000 ∷ 2000 ∷ []) 100 ≡ some two_slots
unfolding create
created = refl

-- The third commit finds the slot in flight.
abbrev events : List Event
events = commits 1 (frame 7) ∷ commits 0 (frame 8) ∷ pops ∷ commits 1 (frame 9) ∷ releases 1 ∷ []

came_out : (run events (opened two_slots)).handed ≡ (1, frame 7) ∷ []
unfolding step
came_out = refl

found : slot_of two_slots 2000 ≡ some 1
unfolding slot_of
found = refl

run-Tidy_example : Tidy (run events (opened two_slots))
run-Tidy_example = run-Tidy (1000 ∷ 2000 ∷ []) 100 events created
