-- ===== src/HostFrameRing/Tests.antt =====
-- Runs of the ring of pipeline/src/host_frame_ring.cpp, and its theorems at concrete inputs.
use perception_pipeline.Prelude.{
  List, [], arith, count, get_elem?, get_or, inr, refl, some, suc, true, zero, ℕ, ◌∷◌, ◌≡◌,
}
use perception_pipeline.HostFrameRing.{
  Ring, blank, create, fresh, reserve, fill, publish, take_newest, acquire_latest, release,
  find_free,
}
use perception_pipeline.HostFrameRing.World.{
  World, Event, begin_publish, end_publish, acquires, drops, step, run,
}
use perception_pipeline.HostFrameRing.Invariant.{IsValid, opened, create-IsValid}
use perception_pipeline.HostFrameRing.Steps.{run-IsValid}
use perception_pipeline.HostFrameRing.Accounting.{
  run-keeps_frame, frame_at, acquire_latest-HandsNewest, HandsNewest,
}
use perception_pipeline.HostFrameRing.Sizing.{publish-Places, Places}

-- Three slots of two bytes, and one reader.
abbrev tap : Ring
tap = record (fresh 3 2) { consumers = record { name = "aruco"; cursor = 0; skipped = 0 } ∷ [] }

abbrev at_rest : World
at_rest = opened tap

-- The reader keeps the first frame while three more are published.
abbrev slow_reader : List Event
slow_reader =
    begin_publish
    ∷ end_publish (1 ∷ 1 ∷ []) 10
    ∷ acquires 0
    ∷ begin_publish
    ∷ end_publish (2 ∷ 2 ∷ []) 20
    ∷ begin_publish
    ∷ end_publish (3 ∷ 3 ∷ []) 30
    ∷ acquires 0
    ∷ drops 0
    ∷ []

slow_reader_counts :
    (get_elem? (run at_rest slow_reader).ring.consumers 0
      ≡ some (record { name = "aruco"; cursor = 3; skipped = 1 }))
    × ((run at_rest slow_reader).held ≡ 2 ∷ [])
    × ((run at_rest slow_reader).ring.in_use ≡ 1)
    × ((run at_rest slow_reader).ring.peak_in_use ≡ 3)
unfolding run step reserve find_free fill acquire_latest take_newest release
slow_reader_counts = (refl, refl, refl, refl)

created : IsValid (opened (fresh 3 2))
unfolding create
created = create-IsValid 3 2 (omega arith) refl

at_rest-IsValid : IsValid at_rest
at_rest-IsValid = record {
  shape = created.shape;
  small = created.small;
  tally = created.tally;
  total = created.total;
  busy = created.busy;
  newest = created.newest;
  apart = created.apart;
}

run-IsValid_example : IsValid (run at_rest slow_reader)
unfolding step reserve find_free fill acquire_latest take_newest release
run-IsValid_example = run-IsValid at_rest slow_reader at_rest-IsValid (omega arith)

-- The first frame is in the reader's hands, in slot 0.
abbrev reading : World
reading =
    record (opened (record tap {
      frames =
          record { content = 1 ∷ 1 ∷ []; bytes = 2; timestamp_ns = 10; sequence = 1 }
          ∷ blank 2
          ∷ blank 2
          ∷ [];
      holds = 1 ∷ 0 ∷ 0 ∷ [];
      latest = 0;
      latest_seq = 1;
      sequence = 1;
      in_use = 1;
      peak_in_use = 1;
      publishing = true;
      published = 1;
      consumers = record { name = "aruco"; cursor = 1; skipped = 0 } ∷ [];
    })) { held = 0 ∷ [] }

reading_tally : (i : ℕ) → get_or {A = ℕ} (1 ∷ 0 ∷ 0 ∷ []) i 0 ≡ count i (0 ∷ [])
reading_tally zero = refl
reading_tally (suc zero) = refl
reading_tally (suc (suc zero)) = refl
reading_tally (suc (suc (suc i))) = ground arith

reading-IsValid : IsValid reading
reading-IsValid = record {
  shape = refl;
  small = omega arith;
  tally = λ i. omega (arith, reading_tally i);
  total = refl;
  busy = refl;
  newest = inr (omega arith, refl);
  apart = tt;
}

abbrev two_more : List Event
two_more =
    begin_publish ∷ end_publish (2 ∷ 2 ∷ []) 20 ∷ begin_publish ∷ end_publish (3 ∷ 3 ∷ []) 30 ∷ []

run-keeps_frame_example : frame_at (run reading two_more).ring 0 ≡ frame_at reading.ring 0
unfolding step reserve find_free fill
run-keeps_frame_example =
    run-keeps_frame reading two_more 0 reading-IsValid (omega arith) (omega arith)

-- The second reader of `late` has seen the first of three frames.
abbrev late : World
late = record reading {
  ring = record reading.ring {
    consumers =
        record { name = "aruco"; cursor = 1; skipped = 0 }
        ∷ record { name = "recorder"; cursor = 0; skipped = 0 }
        ∷ [];
  };
}

late-IsValid : IsValid late
late-IsValid = record {
  shape = refl;
  small = omega arith;
  tally = reading-IsValid.tally;
  total = refl;
  busy = refl;
  newest = inr (omega arith, refl);
  apart = tt;
}

acquire_latest-HandsNewest_example :
    HandsNewest late.ring 1
      (record { name = "recorder"; cursor = 0; skipped = 0 })
      (acquire_latest late.ring 1)
      0
unfolding acquire_latest take_newest
acquire_latest-HandsNewest_example =
    acquire_latest-HandsNewest late 1 0 (record { name = "recorder"; cursor = 0; skipped = 0 })
      late-IsValid refl (omega arith) refl

publish-Places_example : Places late.ring (publish late.ring (4 ∷ []) 40)
publish-Places_example =
    publish-Places late (4 ∷ []) 40 late-IsValid refl refl (omega arith) (omega arith)
