-- ===== src/IngressRing.antt =====
-- pipeline/include/host_ingress_ring.hpp and pipeline/src/host_ingress_ring.cpp: the pinned staging
-- slots between a camera and the upload. Each locked section is one function; a wait that
-- would block is the outcome `blocked`, a timed wait that runs out answers nothing, and an exception is
-- `failed`. The GPU's answer about the copy out of a slot (`cudaEventQuery`) is an argument; slot memory
-- is its address, a number.
pub mod InFlight
pub mod Orders
pub mod Refills
pub mod Runs
mod Tests
use perception_pipeline.Prelude.{
  Bool, List, Option, [], false, get_elem?, get_or, if◌then◌else◌, inc64, leb, length, ltb, no_slot,
  none, not, replicate, set, sub64, true, ℕ, ◌%◌, ◌&&◌, ◌++◌, ◌+◌, ◌==◌, ◌||◌, ◌∷◌,
}

pub data FillMode : Type 0 where
  staged external : FillMode

pub data SlotState : Type 0 where
  idle committed_slot releasing : SlotState

pub record IngressRing : Type 0 where
  pub slot_bytes : ℕ
  pub fill : FillMode
  pub host : List ℕ
  pub timestamp_ns : List ℕ
  pub bytes : List ℕ
  pub state : List SlotState
  pub ready : List ℕ
  pub acquired : ℕ
  pub committed : ℕ
  pub released : ℕ
  pub running : Bool

pub data Error : Type 0 where
  empty_ring not_staged not_external bad_slot too_large not_most_recent in_flight : Error

-- `addresses` are what cudaMallocHost gives for the slots.
abbrev pub new_ring : List ℕ → ℕ → FillMode → IngressRing
new_ring addresses slot_bytes fill = record {
  slot_bytes = slot_bytes;
  fill = fill;
  host = addresses;
  timestamp_ns = replicate (length addresses) 0;
  bytes = replicate (length addresses) 0;
  state = replicate (length addresses) idle;
  ready = [];
  acquired = 0;
  committed = 0;
  released = 0;
  running = true;
}

pub data Outcome : Type 0 where
  failed : Error → Outcome
  done : IngressRing → Outcome

unfoldable pub construct : List ℕ → ℕ → FillMode → Outcome
construct addresses slot_bytes fill =
    if length addresses == 0 || slot_bytes == 0
    then failed empty_ring
    else done (new_ring addresses slot_bytes fill)

abbrev pub count_slots : IngressRing → ℕ
count_slots r = length r.host

-- acquire: the slot, or no_slot once the ring is stopped.
pub data Given : Type 0 where
  refused : Error → Given
  blocked : Given
  given : ℕ → IngressRing → Given

unfoldable pub acquire : IngressRing → Given
acquire r = elim r.fill [
  | external ↦ refused not_staged
  | staged ↦
      if not r.running
      then given no_slot r
      else if ltb (sub64 r.acquired r.released) (count_slots r)
      then given (r.acquired % count_slots r) (record r { acquired = inc64 r.acquired })
      else blocked
]

unfoldable pub host_ptr : IngressRing → ℕ → Option ℕ
host_ptr r slot = if leb (count_slots r) slot then none else get_elem? r.host slot

-- The part that commit and commit_external share.
abbrev pub put_ready : IngressRing → ℕ → ℕ → ℕ → IngressRing
put_ready r slot timestamp_ns bytes = record r {
  timestamp_ns = set r.timestamp_ns slot timestamp_ns;
  bytes = set r.bytes slot bytes;
  state = set r.state slot committed_slot;
  ready = r.ready ++ slot ∷ [];
  committed = inc64 r.committed;
}

abbrev pub is_most_recent : IngressRing → ℕ → Bool
is_most_recent r slot =
    not (r.acquired == r.committed) && slot == sub64 r.acquired 1 % count_slots r

unfoldable pub commit : IngressRing → ℕ → ℕ → ℕ → Outcome
commit r slot timestamp_ns bytes = elim r.fill [
  | external ↦ failed not_staged
  | staged ↦
      if leb (count_slots r) slot
      then failed bad_slot
      else if ltb r.slot_bytes bytes
      then failed too_large
      else if not (is_most_recent r slot)
      then failed not_most_recent
      else done (put_ready r slot timestamp_ns bytes)
]

unfoldable pub abandon : IngressRing → ℕ → Outcome
abandon r slot = elim r.fill [
  | external ↦ failed not_staged
  | staged ↦
      if not (is_most_recent r slot)
      then failed not_most_recent
      else done (record r { acquired = sub64 r.acquired 1 })
]

-- The search for an address, from slot `i` on.
unfoldable pub slot_from : ℕ → ℕ → List ℕ → ℕ
slot_from ptr i [] = no_slot
slot_from ptr i (p ∷ ps) = if p == ptr then i else slot_from ptr (i + 1) ps

unfoldable pub slot_of : IngressRing → ℕ → ℕ
unfolding slot_from
slot_of r ptr = slot_from ptr 0 r.host

abbrev pub is_idle : SlotState → Bool
is_idle idle = true
is_idle _ = false

abbrev pub is_releasing : SlotState → Bool
is_releasing releasing = true
is_releasing _ = false

unfoldable pub commit_external : IngressRing → ℕ → ℕ → ℕ → Outcome
commit_external r slot timestamp_ns bytes = elim r.fill [
  | staged ↦ failed not_external
  | external ↦
      if leb (count_slots r) slot
      then failed bad_slot
      else if ltb r.slot_bytes bytes
      then failed too_large
      else if not (is_idle (get_or r.state slot idle))
      then failed in_flight
      else done (put_ready r slot timestamp_ns bytes)
]

pub data Consumed : Type 0 where
  no_such_slot : Consumed
  answer : Bool → IngressRing → Consumed

-- `retired` is whether the copy out of the slot has ended on the GPU.
unfoldable pub slot_consumed : IngressRing → ℕ → Bool → Consumed
slot_consumed r slot retired =
    if leb (count_slots r) slot
    then no_such_slot
    else if is_idle (get_or r.state slot idle)
    then answer true r
    else if not (is_releasing (get_or r.state slot idle))
    then answer false r
    else if not retired
    then answer false r
    else answer true (record r { state = set r.state slot idle })

pub record Staged : Type 0 where
  pub slot : ℕ
  pub data_at : ℕ
  pub bytes : ℕ
  pub timestamp_ns : ℕ

pub data Taken : Type 0 where
  no_frame : Taken
  frame : Staged → IngressRing → Taken

-- What a pop hands out of a slot.
abbrev pub staged_at : IngressRing → ℕ → Staged
staged_at r slot = record {
  slot = slot;
  data_at = get_or r.host slot 0;
  bytes = get_or r.bytes slot 0;
  timestamp_ns = get_or r.timestamp_ns slot 0;
}

abbrev pub take_front : IngressRing → List ℕ → Taken
take_front r [] = no_frame
take_front r (slot ∷ slots) = frame (staged_at r slot) (record r { ready = slots })

-- take_ready, which is what both pops do after their wait.
unfoldable pub take_ready : IngressRing → Taken
take_ready r = if not r.running then no_frame else take_front r r.ready

unfoldable pub release : IngressRing → ℕ → Outcome
release r slot =
    if leb (count_slots r) slot
    then failed bad_slot
    else done (record r { state = set r.state slot releasing; released = inc64 r.released })

unfoldable pub stop : IngressRing → IngressRing
stop r = if not r.running then r else record r { running = false }
