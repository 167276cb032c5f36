-- ===== src/DeviceRing/Reads.antt =====
-- The consumer's side of pipeline/src/device_ring_buffer.cpp, and its leases.
use perception_pipeline.Prelude.{
  Bool, Option, false, get_or, if◌then◌else◌, leb, ltb, no_slot, no_timestamp, none, not, some, suc,
  true, zero, ℕ, ◌&&◌, ◌+◌, ◌-◌, ◌==◌, ◌^◌, ◌||◌,
}
use perception_pipeline.DeviceRing.{Ring, slot_count, is_odd, count_in, drop_slot_hold}

pub record ReadLease : Type 0 where
  pub slot : ℕ
  pub seq : ℕ
  pub consumer_id : ℕ
  pub timestamp_ns : ℕ

pub data Leased : Type 0 where
  consumer_out_of_range : Leased
  leased : Option ReadLease → Ring → Leased

-- The last part of an attempt: count in, look at seq again, and keep the hold or give it back.
unfoldable pub confirm : Ring → ℕ → ℕ → ℕ → Option ReadLease
confirm r slot seq consumer_id =
    if get_or (count_in r slot).seq slot 0 == seq
    then some record {
      slot = slot;
      seq = seq;
      consumer_id = consumer_id;
      timestamp_ns = get_or r.timestamp_ns slot 0;
    }
    else none

unfoldable pub latest_attempts : Ring → ℕ → ℕ → Leased
unfolding confirm
latest_attempts r consumer_id zero = leased none r
latest_attempts r consumer_id (suc attempts) =
    let rest = latest_attempts r consumer_id attempts in
    if r.latest == no_slot
    then leased none r
    else if is_odd (get_or r.seq r.latest 0)
    then rest
    else elim (confirm r r.latest (get_or r.seq r.latest 0) consumer_id) [
      | none ↦ rest
      | some lease ↦ leased (some lease) (count_in r r.latest)
    ]

-- lease_latest by a consumer that nobody interferes with.
unfoldable pub lease_latest : Ring → ℕ → ℕ → Leased
unfolding latest_attempts
lease_latest r consumer_id max_attempts =
    if leb r.max_consumers consumer_id
    then consumer_out_of_range
    else latest_attempts r consumer_id max_attempts

-- `FramePeek`: what the searches look at in a slot.
pub record FramePeek : Type 0 where
  pub timestamp_ns : ℕ
  pub slot : ℕ
  pub slot_seq : ℕ

abbrev pub distance : ℕ → ℕ → ℕ
distance a b = if ltb b a then a - b else b - a

-- The guards of a slot: written, not being written, not abandoned, inside the tolerance.
abbrev pub is_candidate : Ring → ℕ → ℕ → ℕ → Bool
is_candidate r timestamp_ns tol slot =
    not (get_or r.seq slot 0 == 0 || is_odd (get_or r.seq slot 0))
    && not (get_or r.timestamp_ns slot 0 == no_timestamp)
    && leb (distance timestamp_ns (get_or r.timestamp_ns slot 0)) tol

abbrev pub peek_at : Ring → ℕ → FramePeek
peek_at r slot = record {
  timestamp_ns = get_or r.timestamp_ns slot 0;
  slot = slot;
  slot_seq = get_or r.seq slot 0;
}

-- The search from `slot` on, over the next `n` slots, with the best so far.
unfoldable pub search_from : Ring → ℕ → ℕ → Bool → ℕ → ℕ → ℕ → Option FramePeek → Option FramePeek
search_from r timestamp_ns tol closest_match slot zero best_diff best = best
search_from r timestamp_ns tol closest_match slot (suc n) best_diff best =
    let diff = distance timestamp_ns (get_or r.timestamp_ns slot 0) in
    elim (is_candidate r timestamp_ns tol slot) [
      | false ↦ search_from r timestamp_ns tol closest_match (slot + 1) n best_diff best
      | true ↦ elim closest_match [
        | false ↦ some (peek_at r slot)
        | true ↦ elim (ltb diff best_diff) [
          | true ↦ search_from r timestamp_ns tol true (slot + 1) n diff (some (peek_at r slot))
          | false ↦ search_from r timestamp_ns tol true (slot + 1) n best_diff best
        ]
      ]
    ]

unfoldable pub get_view_by_timestamp : Ring → ℕ → ℕ → Bool → Option FramePeek
unfolding search_from
get_view_by_timestamp r timestamp_ns tol closest_match =
    search_from r timestamp_ns tol closest_match 0 (slot_count r) (2 ^ 64 - 1) none

-- The locals of lease_by_timestamp's search; `slot` is no_slot until one is found.
pub record BestSlot : Type 0 where
  pub diff : ℕ
  pub slot : ℕ
  pub seq : ℕ

-- lease_by_timestamp's own loop, from `slot` on over the next `n` slots.
unfoldable pub best_from : Ring → ℕ → ℕ → Bool → ℕ → ℕ → BestSlot → BestSlot
best_from r timestamp_ns tol closest_match slot zero best = best
best_from r timestamp_ns tol closest_match slot (suc n) best =
    let seq = get_or r.seq slot 0 in
    let stamp = get_or r.timestamp_ns slot 0 in
    let diff = if ltb stamp timestamp_ns then timestamp_ns - stamp else stamp - timestamp_ns in
    let later = best_from r timestamp_ns tol closest_match (slot + 1) n best in
    if seq == 0 || is_odd seq
    then later
    else if stamp == no_timestamp
    then later
    else if ltb tol diff
    then later
    else if not closest_match
    then record best { slot = slot; seq = seq }
    else elim (ltb diff best.diff) [
      | true ↦
          best_from r timestamp_ns tol closest_match (slot + 1) n
            (record { diff = diff; slot = slot; seq = seq })
      | false ↦ later
    ]

abbrev pub no_best : BestSlot
no_best = record { diff = 2 ^ 64 - 1; slot = no_slot; seq = 0 }

-- The part of an attempt after its search.
abbrev pub after_search : Ring → ℕ → Leased → BestSlot → Leased
after_search r consumer_id rest best =
    if best.slot == no_slot
    then leased none r
    else elim (confirm r best.slot best.seq consumer_id) [
      | none ↦ rest
      | some lease ↦ leased (some lease) (count_in r best.slot)
    ]

unfoldable pub timestamp_attempts : Ring → ℕ → ℕ → Bool → ℕ → ℕ → Leased
unfolding confirm best_from
timestamp_attempts r timestamp_ns tol closest_match consumer_id zero = leased none r
timestamp_attempts r timestamp_ns tol closest_match consumer_id (suc attempts) =
    after_search r consumer_id
      (timestamp_attempts r timestamp_ns tol closest_match consumer_id attempts)
      (best_from r timestamp_ns tol closest_match 0 (slot_count r) no_best)

-- lease_by_timestamp by a consumer that nobody interferes with.
unfoldable pub lease_by_timestamp : Ring → ℕ → ℕ → ℕ → Bool → ℕ → Leased
unfolding timestamp_attempts
lease_by_timestamp r timestamp_ns tol consumer_id closest_match max_attempts =
    if leb r.max_consumers consumer_id
    then consumer_out_of_range
    else timestamp_attempts r timestamp_ns tol closest_match consumer_id max_attempts

unfoldable pub view_latest_inplace : Ring → Option FramePeek
view_latest_inplace r =
    if r.latest == no_slot
    then none
    else if is_odd (get_or r.seq r.latest 0)
    then none
    else some (peek_at r r.latest)

unfoldable pub read_was_clean : Ring → FramePeek → Bool
read_was_clean r view = get_or r.seq view.slot 0 == view.slot_seq && not (is_odd view.slot_seq)

-- The lease's end, once; a second drop_hold does nothing.
unfoldable pub drop_hold : Ring → Option ReadLease → Ring
unfolding drop_slot_hold
drop_hold r none = r
drop_hold r (some lease) = drop_slot_hold r lease.slot
