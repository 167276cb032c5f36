-- ===== src/DeviceRing/Tests.antt =====
-- A ring of three slots, its runs, and an instance of each theorem.
use perception_pipeline.DeviceRing.Abandoned.{abandon_slot-lease_latest}
use perception_pipeline.Prelude.{
  List, [], arith, false, get_or, no_timestamp, refl, some, true, ◌<◌, ◌∷◌, ◌≡◌,
}
use perception_pipeline.DeviceRing.{
  count_in, abandon_slot, Ring, blank_ring, round_robin, slot_count, is_odd,
}
use perception_pipeline.DeviceRing.Reads.{
  leased, lease_latest, get_view_by_timestamp, lease_by_timestamp,
}
use perception_pipeline.DeviceRing.Seqlock.{
  abandons, Event, chooses, advances, publishes, moves, run, opened, holding, idle, fenced,
}
use perception_pipeline.DeviceRing.Exclusive.{masters, owns, holders}
use perception_pipeline.DeviceRing.Leases.{run-leases_hold, run-counts_readers}
use perception_pipeline.DeviceRing.Closest.{Answers, get_view_by_timestamp-Answers}
use perception_pipeline.DeviceRing.TwoSearches.{taken, lease_by_timestamp-takes}

abbrev empty_ring : Ring
empty_ring = blank_ring 3 round_robin 2

-- A frame stamped 500 in slot 0 is leased by consumer 1; then the producer comes for slot 0.
abbrev story : List Event
story =
    chooses 0
    ∷ advances true
    ∷ advances true
    ∷ publishes 500
    ∷ advances true
    ∷ advances true
    ∷ moves 1
    ∷ moves 1
    ∷ moves 1
    ∷ moves 1
    ∷ moves 1
    ∷ chooses 0
    ∷ advances true
    ∷ advances true
    ∷ []

leased_in_story : get_or (run (opened empty_ring 2) story).threads 1 idle ≡ holding 0 500
unfolding run
leased_in_story = refl

waits_in_story : (run (opened empty_ring 2) story).writer ≡ fenced 0
unfolding run
waits_in_story = refl

run-leases_hold_example :
    (get_or (run (opened empty_ring 2) story).ring.timestamp_ns 0 0 ≡ 500)
    × (masters (run (opened empty_ring 2) story).writer 0 ≡ false)
run-leases_hold_example =
    run-leases_hold 3 2 2 round_robin story 1 0 500 (omega arith) leased_in_story

slots_in_story : 0 < slot_count (run (opened empty_ring 2) story).ring
unfolding run
slots_in_story = omega arith

run-counts_readers_example :
    (get_or (run (opened empty_ring 2) story).ring.readers 0 0
      ≡ holders 0 (run (opened empty_ring 2) story).threads)
    × (is_odd (get_or (run (opened empty_ring 2) story).ring.seq 0 0)
        ≡ owns (run (opened empty_ring 2) story).writer 0)
run-counts_readers_example =
    run-counts_readers 3 2 2 round_robin story 0 (omega arith) slots_in_story

-- Slots 0 and 1 hold frames, slot 2 an abandoned one.
abbrev three_slots : Ring
three_slots = record empty_ring {
  seq = 2 ∷ 4 ∷ 2 ∷ [];
  timestamp_ns = 500 ∷ 900 ∷ no_timestamp ∷ [];
  latest = 1;
}

view_800 :
    get_view_by_timestamp three_slots 800 1000 true
    ≡ some record { timestamp_ns = 900; slot = 1; slot_seq = 4 }
unfolding get_view_by_timestamp
view_800 = refl

get_view_by_timestamp-Answers_example :
    Answers three_slots 800 1000 3 (get_view_by_timestamp three_slots 800 1000 true)
get_view_by_timestamp-Answers_example =
    get_view_by_timestamp-Answers three_slots 800 1000 (omega arith)

lease_by_timestamp-takes_example :
    lease_by_timestamp three_slots 800 1000 0 true 4
    ≡ taken three_slots 0 (get_view_by_timestamp three_slots 800 1000 true)
lease_by_timestamp-takes_example =
    lease_by_timestamp-takes three_slots 800 1000 0 3 true (omega arith) (omega arith)

-- Slot 0 is published, the writes of slots 1 and 2 are abandoned, and slot 0's turn comes again.
abbrev round : List Event
round =
    chooses 0
    ∷ advances true
    ∷ advances true
    ∷ publishes 500
    ∷ advances true
    ∷ advances true
    ∷ chooses 1
    ∷ advances true
    ∷ advances true
    ∷ abandons
    ∷ advances true
    ∷ chooses 2
    ∷ advances true
    ∷ advances true
    ∷ abandons
    ∷ advances true
    ∷ chooses 0
    ∷ advances true
    ∷ advances true
    ∷ []

abbrev come_round : Ring
come_round = record empty_ring {
  seq = 3 ∷ 2 ∷ 2 ∷ [];
  timestamp_ns = 500 ∷ no_timestamp ∷ no_timestamp ∷ [];
  latest = 0;
  published = 1;
  wait_seq = 1;
}

round_ends : (run (opened empty_ring 0) round).ring ≡ come_round
unfolding run
round_ends = refl

abandon_slot-lease_latest_example :
    lease_latest (abandon_slot come_round 0) 1 4
    ≡ leased
        (some record { slot = 0; seq = 4; consumer_id = 1; timestamp_ns = no_timestamp })
        (count_in (abandon_slot come_round 0) 0)
abandon_slot-lease_latest_example =
    abandon_slot-lease_latest come_round 1 3 (omega arith) (omega arith) (omega arith) refl refl
