-- ===== src/DeviceRing/Abandoned.antt =====
-- What abandoning a write does to the newest slot: lease_latest has no test for it.
use perception_pipeline.Prelude.{
  ap, arith, false, get_or, get_or-set_self, inc64, leb, length, no_slot, no_timestamp, not, refl,
  set, some, suc, true, ℕ, ◌<◌, ◌==◌, ◌∙◌, ◌≡◌,
}
use perception_pipeline.DeviceRing.{
  Ring, slot_count, is_odd, bump, store_stamp, count_in, abandon_slot,
}
use perception_pipeline.DeviceRing.Reads.{leased, confirm, latest_attempts, lease_latest}
use perception_pipeline.DeviceRing.TwoSearches.{==-self}
use perception_pipeline.DeviceRing.Exclusive.{is_odd-inc64}

-- If the slot that is latest is being written, as round_robin comes round to it, and that write is abandoned,
-- lease_latest by a consumer in range leases that slot with the timestamp that marks no frame.
pub abandon_slot-lease_latest :
    (r : Ring) (consumer_id attempts : ℕ)
    → consumer_id < r.max_consumers
    → r.latest < no_slot
    → r.latest < slot_count r
    → length r.timestamp_ns ≡ slot_count r
    → is_odd (get_or r.seq r.latest 0) ≡ true
    → lease_latest (abandon_slot r r.latest) consumer_id (suc attempts)
      ≡ leased
          (some record {
            slot = r.latest;
            seq = inc64 (get_or r.seq r.latest 0);
            consumer_id = consumer_id;
            timestamp_ns = no_timestamp;
          })
          (count_in (abandon_slot r r.latest) r.latest)
unfolding lease_latest latest_attempts confirm abandon_slot
abandon_slot-lease_latest r c n hc hl hs ht odd =
    let after = bump (store_stamp r r.latest no_timestamp) r.latest in
    let in_range : leb r.max_consumers c ≡ false = ground arith in
    let there : (r.latest == no_slot) ≡ false = ground arith in
    let moved : get_or (set r.seq r.latest (inc64 (get_or r.seq r.latest 0))) r.latest 0
        ≡ inc64 (get_or r.seq r.latest 0) =
      get_or-set_self r.seq r.latest _ 0 hs in
    let void : get_or (set r.timestamp_ns r.latest no_timestamp) r.latest 0 ≡ no_timestamp =
      get_or-set_self r.timestamp_ns r.latest no_timestamp 0 (omega arith) in
    let even : is_odd (inc64 (get_or r.seq r.latest 0)) ≡ false =
      is_odd-inc64 (get_or r.seq r.latest 0) ∙ ap not odd in
    rw in_range (
      rw there (rw moved (rw void (rw even (rw (==-self (inc64 (get_or r.seq r.latest 0))) refl)))))
