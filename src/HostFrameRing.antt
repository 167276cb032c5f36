-- ===== src/HostFrameRing.antt =====
-- pipeline/include/host_frame_ring.hpp and pipeline/src/host_frame_ring.cpp: the host tap, one
-- copy of each camera frame for every CPU reader. Each critical section of the class is one
-- function on the ring's state; `publish` is the two sections of the class run one after the other.
-- Slot memory is a list of bytes for each slot; mutexes and the condition variable are the
-- atomicity of the functions, and a wait that would block is the outcome `waiting`.
pub mod Search
pub mod World
pub mod Invariant
pub mod Writes
pub mod Publishing
pub mod Reading
pub mod Steps
pub mod Accounting
pub mod Sizing
mod Tests
use Prim.Native.String.{String}
use perception_pipeline.Prelude.{
  ℕ, ◌+◌, ◌-◌, Bool, true, false, not, ◌&&◌, List, [], ◌∷◌, ◌++◌, Option, none, some, ltb, ◌==◌,
  if◌then◌else◌, length, get_elem?, get_or, set, replicate, inc32, dec32, inc64, add64, sub64,
  no_slot,
}

-- The fields of `HostFrame` that a publish writes, with the bytes behind `data`.
pub record Frame : Type 0 where
  pub content : List ℕ
  pub bytes : ℕ
  pub timestamp_ns : ℕ
  pub sequence : ℕ

pub record Consumer : Type 0 where
  pub name : String
  pub cursor : ℕ
  pub skipped : ℕ

-- `Store` and the members of the ring itself.
pub record Ring : Type 0 where
  pub frame_bytes : ℕ
  pub frames : List Frame
  pub holds : List ℕ
  pub latest : ℕ
  pub latest_seq : ℕ
  pub sequence : ℕ
  pub in_use : ℕ
  pub peak_in_use : ℕ
  pub running : Bool
  pub consumers : List Consumer
  pub publishing : Bool
  pub published : ℕ
  pub drops : ℕ

abbrev pub blank : ℕ → Frame
blank frame_bytes = record { content = []; bytes = frame_bytes; timestamp_ns = 0; sequence = 0 }

abbrev pub fresh : ℕ → ℕ → Ring
fresh slots frame_bytes = record {
  frame_bytes = frame_bytes;
  frames = replicate slots (blank frame_bytes);
  holds = replicate slots 0;
  latest = no_slot;
  latest_seq = 0;
  sequence = 0;
  in_use = 0;
  peak_in_use = 0;
  running = true;
  consumers = [];
  publishing = false;
  published = 0;
  drops = 0;
}

-- The constructor; `none` where it throws.
unfoldable pub create : ℕ → ℕ → Option Ring
create slots frame_bytes =
    if ltb slots 2 then none else if frame_bytes == 0 then none else some (fresh slots frame_bytes)

-- `none` where it throws: publishing has begun.
unfoldable pub add_consumer : Ring → String → Option (ℕ × Ring)
add_consumer r name = if r.publishing then none else some (length r.consumers, joined)
  where
    joined : Ring
    joined = record r {
      consumers = r.consumers ++ record { name = name; cursor = 0; skipped = 0 } ∷ [];
    }

-- The loop of `publish`: the first slot from `i` on that nobody holds and that is not the newest.
unfoldable pub find_free : ℕ → List ℕ → ℕ → ℕ
find_free latest [] i = no_slot
find_free latest (h ∷ hs) i =
    if (h == 0) && not (i == latest) then i else find_free latest hs (i + 1)

-- What the first critical section of `publish` decides.
pub data Reserved : Type 0 where
  stopped full : Reserved
  slot : ℕ → Reserved

abbrev pub hold_for_copy : Ring → ℕ → Ring
hold_for_copy r s =
    let used = inc32 r.in_use in
    record r {
      publishing = true;
      holds = set r.holds s 1;
      in_use = used;
      peak_in_use = if ltb r.peak_in_use used then used else r.peak_in_use;
    }

-- The first critical section, with the assignment of `publishing_` before it.
unfoldable pub reserve : Ring → Ring × Reserved
reserve r =
    if not r.running
    then (record r { publishing = true }, stopped)
    else if find_free r.latest r.holds 0 == no_slot
    then (record r { publishing = true; drops = inc64 r.drops }, full)
    else (hold_for_copy r (find_free r.latest r.holds 0), slot (find_free r.latest r.holds 0))

-- The frame is too large: the reservation is undone, and the call throws.
unfoldable pub reject : Ring → ℕ → Ring
reject r s = record r { holds = set r.holds s 0; in_use = dec32 r.in_use }

-- The frame that the copy and the second critical section leave in the slot.
abbrev pub filled : Ring → List ℕ → ℕ → Frame
filled r content timestamp_ns = record {
  content = content;
  bytes = length content;
  timestamp_ns = timestamp_ns;
  sequence = inc64 r.sequence;
}

-- The copy into the slot and the second critical section.
unfoldable pub fill : Ring → ℕ → List ℕ → ℕ → Ring
fill r s content timestamp_ns = record r {
  frames = set r.frames s (filled r content timestamp_ns);
  sequence = inc64 r.sequence;
  latest = s;
  latest_seq = inc64 r.sequence;
  holds = holds;
  in_use =
      if not (r.latest == no_slot) && (get_or holds r.latest 0 == 0)
      then dec32 r.in_use
      else r.in_use;
  published = inc64 r.published;
}
  where
    holds : List ℕ
    holds = set r.holds s (dec32 (get_or r.holds s 0))

-- What `publish` gives its caller.
pub data Published : Type 0 where
  done refused throws : Published

abbrev pub fill_or_reject : Ring → ℕ → List ℕ → ℕ → Ring × Published
fill_or_reject r s content timestamp_ns =
    if ltb r.frame_bytes (length content)
    then (reject r s, throws)
    else (fill r s content timestamp_ns, done)

abbrev pub after_reserve : Ring × Reserved → List ℕ → ℕ → Ring × Published
after_reserve (r, stopped) content timestamp_ns = (r, refused)
after_reserve (r, full) content timestamp_ns = (r, refused)
after_reserve (r, slot s) content timestamp_ns = fill_or_reject r s content timestamp_ns

-- `publish` with no other thread between its sections.
unfoldable pub publish : Ring → List ℕ → ℕ → Ring × Published
publish r content timestamp_ns = after_reserve (reserve r) content timestamp_ns

-- What `acquire_latest` returns: null, a handle on a slot, or nothing yet.
pub data Acquired : Type 0 where
  null waiting : Acquired
  handle : ℕ → Acquired

-- The ring after the newest frame went to reader `c`.
abbrev pub hand_over : Ring → ℕ → Consumer → Ring
hand_over r c reader = record r {
  holds = set r.holds r.latest (inc32 (get_or r.holds r.latest 0));
  consumers = set r.consumers c (record reader {
    skipped = add64 reader.skipped (sub64 (sub64 r.latest_seq reader.cursor) 1);
    cursor = r.latest_seq;
  });
}

unfoldable pub take_newest : Ring → ℕ → Consumer → Ring × Acquired
take_newest r c reader =
    if not r.running
    then (r, null)
    else if ltb reader.cursor r.latest_seq
    then (hand_over r c reader, handle r.latest)
    else (r, waiting)

unfoldable pub acquire_latest : Ring → ℕ → Ring × Acquired
acquire_latest r c = elim (get_elem? r.consumers c) [
  | none ↦ (r, null)
  | some reader ↦ take_newest r c reader
]

abbrev pub let_go : Ring → ℕ → ℕ → Ring
let_go r s left = record r {
  holds = set r.holds s left;
  in_use = if (left == 0) && not (s == r.latest) then dec32 r.in_use else r.in_use;
}

-- `Store::release`, the deleter of a handle.
unfoldable pub release : Ring → ℕ → Ring
release r s = if get_or r.holds s 0 == 0 then r else let_go r s (get_or r.holds s 0 - 1)

unfoldable pub stop : Ring → Ring
stop r = if not r.running then r else record r { running = false }
