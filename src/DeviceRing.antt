-- ===== src/DeviceRing.antt =====
-- pipeline/include/device_ring_buffer.hpp and pipeline/src/device_ring_buffer.cpp: the ring of
-- device buffers that cameras write and consumers lease. The atomics are numbers that wrap around;
-- one atomic access is one function, and the operations compose them. Whether the GPU has retired
-- the reads of a slot (`cudaEventQuery`) is an argument. What interleavings do is in Seqlock.
pub mod Reads
pub mod Seqlock
pub mod Exclusive
pub mod Producer
pub mod Consumer
pub mod Leases
pub mod Closest
pub mod Searching
pub mod TwoSearches
pub mod Abandoned
mod Tests
use perception_pipeline.Prelude.{
  Bool, List, dec32, false, get_or, if◌then◌else◌, inc32, inc64, length, ltb, no_slot, no_timestamp,
  not, replicate, set, suc, true, zero, ℕ, ◌%◌, ◌&&◌, ◌+◌, ◌==◌, ◌||◌,
}

pub data WritePolicy : Type 0 where
  round_robin scan_for_free : WritePolicy

pub record Ring : Type 0 where
  pub write_policy : WritePolicy
  pub max_consumers : ℕ
  pub seq : List ℕ
  pub timestamp_ns : List ℕ
  pub readers : List ℕ
  pub next_write_slot : ℕ
  pub latest : ℕ
  pub write_stalls : ℕ
  pub write_drops : ℕ
  pub published : ℕ
  pub wait_seq : ℕ

pub data Fault : Type 0 where
  needs_two_slots needs_a_consumer : Fault

pub data Created : Type 0 where
  refused : Fault → Created
  created : Ring → Created

abbrev pub blank_ring : ℕ → WritePolicy → ℕ → Ring
blank_ring slot_count write_policy max_consumers = record {
  write_policy = write_policy;
  max_consumers = max_consumers;
  seq = replicate slot_count 0;
  timestamp_ns = replicate slot_count 0;
  readers = replicate slot_count 0;
  next_write_slot = 0;
  latest = no_slot;
  write_stalls = 0;
  write_drops = 0;
  published = 0;
  wait_seq = 0;
}

unfoldable pub create : ℕ → ℕ → WritePolicy → ℕ → Created
create slot_count slot_bytes write_policy max_consumers =
    if ltb slot_count 2 || slot_bytes == 0
    then refused needs_two_slots
    else if max_consumers == 0
    then refused needs_a_consumer
    else created (blank_ring slot_count write_policy max_consumers)

abbrev pub slot_count : Ring → ℕ
slot_count r = length r.seq

abbrev pub is_odd : ℕ → Bool
is_odd n = n % 2 == 1

-- seq_[slot].fetch_add(1)
abbrev pub bump : Ring → ℕ → Ring
bump r slot = record r { seq = set r.seq slot (inc64 (get_or r.seq slot 0)) }

-- readers_[slot].fetch_add(1) and fetch_sub(1)
abbrev pub count_in : Ring → ℕ → Ring
count_in r slot = record r { readers = set r.readers slot (inc32 (get_or r.readers slot 0)) }

abbrev pub count_out : Ring → ℕ → Ring
count_out r slot = record r { readers = set r.readers slot (dec32 (get_or r.readers slot 0)) }

abbrev pub store_stamp : Ring → ℕ → ℕ → Ring
store_stamp r slot timestamp_ns = record r { timestamp_ns = set r.timestamp_ns slot timestamp_ns }

-- `query slot c` is the answer of cudaEventQuery for the last read of `slot` by consumer `c`.
unfoldable pub reads_retired : (ℕ → ℕ → Bool) → ℕ → ℕ → Bool
reads_retired query slot zero = true
reads_retired query slot (suc c) = reads_retired query slot c && query slot c

-- What one scan of `claim_free_slot` ends with.
pub record Scan : Type 0 where
  pub free : ℕ
  pub busy : ℕ
  pub reading : ℕ

-- The scan from offset `i` on, over the next `n` slots.
unfoldable pub scan : (ℕ → ℕ → Bool) → Ring → ℕ → ℕ → ℕ → ℕ → Scan
unfolding reads_retired
scan query r i zero busy reading = record { free = no_slot; busy = busy; reading = reading }
scan query r i (suc n) busy reading =
    let slot = (r.next_write_slot + i) % slot_count r in
    elim (slot == r.latest) [
      | true ↦ scan query r (i + 1) n busy reading
      | false ↦ elim (get_or r.readers slot 0 == 0) [
        | false ↦ scan query r (i + 1) n (if busy == no_slot then slot else busy) reading
        | true ↦ elim (reads_retired query slot r.max_consumers) [
          | false ↦ scan query r (i + 1) n busy (if reading == no_slot then slot else reading)
          | true ↦ record { free = slot; busy = busy; reading = reading }
        ]
      ]
    ]

-- One round of the loop: a slot, none, a wait on a leased slot, or the exception.
pub data Claim : Type 0 where
  claimed : ℕ → Ring → Claim
  none_free : Claim
  parked : ℕ → Ring → Claim
  too_small : Claim

abbrev pub take_slot : Ring → ℕ → Claim
take_slot r slot = claimed slot (record r { next_write_slot = (slot + 1) % slot_count r })

unfoldable pub claim_free_slot : (ℕ → ℕ → Bool) → Ring → Bool → Claim
unfolding scan
claim_free_slot query r blocking =
    let found = scan query r 0 (slot_count r) no_slot no_slot in
    if not (found.free == no_slot)
    then take_slot r found.free
    else if not blocking
    then none_free
    else if not (found.reading == no_slot)
    then take_slot r found.reading
    else if found.busy == no_slot
    then too_small
    else parked found.busy (record r { write_stalls = inc64 r.write_stalls })

-- A write lease, no lease, a wait for the readers of the slot (whose seq is odd meanwhile) or for
-- any release, and the exceptions.
pub data WriteAcquired : Type 0 where
  write_lease : ℕ → Ring → WriteAcquired
  no_lease : Ring → WriteAcquired
  waits_on : ℕ → Ring → WriteAcquired
  ring_too_small needs_scan : WriteAcquired

-- wait_unleased, up to the wait.
unfoldable pub wait_unleased : Ring → ℕ → WriteAcquired
wait_unleased r slot =
    if get_or r.readers slot 0 == 0
    then write_lease slot r
    else waits_on slot (record r { write_stalls = inc64 r.write_stalls })

-- The rest of acquire_write_impl, once it has a slot.
unfoldable pub fence_off : Ring → ℕ → Bool → WriteAcquired
unfolding wait_unleased
fence_off r slot blocking =
    let fenced = bump r slot in
    if blocking
    then wait_unleased fenced slot
    else if not (get_or fenced.readers slot 0 == 0)
    then (let back = bump fenced slot in
        no_lease (record back { write_drops = inc64 r.write_drops }))
    else write_lease slot fenced

unfoldable pub acquire_write_impl : (ℕ → ℕ → Bool) → Ring → Bool → WriteAcquired
unfolding fence_off claim_free_slot
acquire_write_impl query r blocking = elim r.write_policy [
  | round_robin ↦
      fence_off (record r { next_write_slot = (r.next_write_slot + 1) % slot_count r })
        r.next_write_slot blocking
  | scan_for_free ↦ elim (claim_free_slot query r blocking) [
    | claimed slot r' ↦ fence_off r' slot blocking
    | none_free ↦ no_lease (record r { write_drops = inc64 r.write_drops })
    | parked slot r' ↦ waits_on slot r'
    | too_small ↦ ring_too_small
  ]
]

unfoldable pub acquire_write : (ℕ → ℕ → Bool) → Ring → WriteAcquired
unfolding acquire_write_impl
acquire_write query r = acquire_write_impl query r true

unfoldable pub try_acquire_write : (ℕ → ℕ → Bool) → Ring → WriteAcquired
unfolding acquire_write_impl
try_acquire_write query r = elim r.write_policy [
  | round_robin ↦ needs_scan
  | scan_for_free ↦ acquire_write_impl query r false
]

-- latest_.store(slot), and the counters behind it.
abbrev pub announce : Ring → ℕ → Ring
announce r slot = record r {
  latest = slot;
  published = inc64 r.published;
  wait_seq = inc64 r.wait_seq;
}

unfoldable pub publish_slot : Ring → ℕ → ℕ → Ring
publish_slot r slot timestamp_ns = announce (bump (store_stamp r slot timestamp_ns) slot) slot

unfoldable pub abandon_slot : Ring → ℕ → Ring
abandon_slot r slot = bump (store_stamp r slot no_timestamp) slot

unfoldable pub wake_all : Ring → Ring
wake_all r = record r { wait_seq = inc64 r.wait_seq }

unfoldable pub drop_slot_hold : Ring → ℕ → Ring
drop_slot_hold r slot = count_out r slot
