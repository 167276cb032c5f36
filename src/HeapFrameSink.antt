-- ===== src/HeapFrameSink.antt =====
-- capture/src/heap_frame_sink.cpp: slots that a transport fills and one reader empties. The addresses of the
-- buffers are what the allocator gave; a timeout of pop is an outcome.
pub mod Runs
pub mod Tidy
mod Tests
use perception_pipeline.Ros.Replay.Slots.{FrameMeta}
use perception_pipeline.Prelude.{
  ◌^◌, ◌%◌, Bool, List, Option, [], false, if◌then◌else◌, leb, length, ltb, none, not, some, true,
  ℕ, ◌*◌, ◌++◌, ◌+◌, ◌-◌, ◌/◌, ◌==◌, ◌||◌, ◌∷◌,
}

abbrev pub page_size : ℕ
page_size = 4096

unfoldable pub round_up : ℕ → ℕ → ℕ
round_up value to = (value + to - 1) % 2 ^ 64 / to * to

pub data SlotState : Type 0 where
  idle in_flight : SlotState

pub record Sink : Type 0 where
  pub slot_bytes : ℕ
  pub buffers : List ℕ
  pub meta : ℕ → FrameMeta
  pub state : ℕ → SlotState
  pub ready : List ℕ
  pub running : Bool

abbrev pub no_meta : FrameMeta
no_meta = record { timestamp_ns = 0; host_recv_ns = 0; frame_id = 0; bytes = 0 }

-- `buffers` are the allocator's addresses.
abbrev pub made : List ℕ → ℕ → Sink
made buffers slot_bytes = record {
  slot_bytes = slot_bytes;
  buffers = buffers;
  meta = λ i. no_meta;
  state = λ i. idle;
  ready = [];
  running = true;
}

-- None stands for the exception.
unfoldable pub create : List ℕ → ℕ → Option Sink
unfolding round_up
create buffers slot_bytes =
    if length buffers == 0 || slot_bytes == 0
    then none
    else some (made buffers (round_up slot_bytes page_size))

unfoldable pub slot_from : List ℕ → ℕ → ℕ → Option ℕ
slot_from [] ptr i = none
slot_from (b ∷ bs) ptr i = let rest = slot_from bs ptr (i + 1) in if b == ptr then some i else rest

-- None stands for kNoSlot.
unfoldable pub slot_of : Sink → ℕ → Option ℕ
unfolding slot_from
slot_of s ptr = slot_from s.buffers ptr 0

abbrev pub is_idle : SlotState → Bool
is_idle idle = true
is_idle in_flight = false

abbrev pub filled : Sink → ℕ → FrameMeta → Sink
filled s slot m = record s {
  meta = λ j. if j == slot then m else s.meta j;
  state = λ j. if j == slot then in_flight else s.state j;
  ready = s.ready ++ slot ∷ [];
}

-- None stands for the exceptions: a slot that there is not, a frame that is too long, a slot in flight.
unfoldable pub commit : Sink → ℕ → FrameMeta → Option Sink
commit s slot m =
    if leb (length s.buffers) slot || (ltb s.slot_bytes m.bytes || not (is_idle (s.state slot)))
    then none
    else some (filled s slot m)

unfoldable pub consumed : Sink → ℕ → Option Bool
consumed s slot = if leb (length s.buffers) slot then none else some (is_idle (s.state slot))

-- What pop hands out; none is false, after a timeout or a stop.
pub record Popped : Type 0 where
  pub sink : Sink
  pub frame : Option (ℕ × FrameMeta)

abbrev pub pop_first : Sink → List ℕ → Popped
pop_first s [] = record { sink = s; frame = none }
pop_first s (slot ∷ ready) = record {
  sink = record s { ready = ready };
  frame = some (slot, s.meta slot);
}

unfoldable pub pop : Sink → Popped
pop s = if not s.running then record { sink = s; frame = none } else pop_first s s.ready

unfoldable pub release : Sink → ℕ → Option Sink
release s slot =
    if leb (length s.buffers) slot
    then none
    else some (record s { state = λ j. if j == slot then idle else s.state j })

unfoldable pub stop : Sink → Sink
stop s = record s { running = false }
