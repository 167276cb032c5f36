-- ===== src/HostFrameRing/Sizing.antt =====
-- The sizing rule of pipeline/include/host_frame_ring.hpp: one slot being written, one for the
-- newest frame, and one for each reader.
use perception_pipeline.Prelude.{
  List, arith, count, false, inc64, length, ltb, no_slot, none, refl, true, ℕ, ◌+◌, ◌-◌, ◌≡◌, ◌≢◌,
  ◌≤◌,
}
use perception_pipeline.HostFrameRing.{
  fill, Ring, publish, find_free, done, after_reserve, Published,
}
use perception_pipeline.HostFrameRing.Search.{find_free-full, sum_except_lem}
use perception_pipeline.HostFrameRing.World.{World}
use perception_pipeline.HostFrameRing.Invariant.{IsValid}
use perception_pipeline.HostFrameRing.Publishing.{reserve_cases}

-- The handles on slots other than the newest.
abbrev pub stale : World → ℕ
stale w = length w.held - count w.ring.latest w.held

find_free-succeeds :
    (w : World)
    → IsValid w
    → w.pending ≡ none
    → stale w + 2 ≤ length w.ring.holds
    → find_free w.ring.latest w.ring.holds 0 ≢ no_slot
find_free-succeeds w v idle room e = ground (
  arith,
  v.small,
  v.tally w.ring.latest,
  v.total,
  find_free-full w.ring.latest w.ring.holds 0 (omega (arith, v.small)) e,
  sum_except_lem w.ring.latest w.ring.holds 0 w.ring.latest (omega arith),
)

-- A publish that places its frame: it drops none, and its frame is the newest.
abbrev pub Places : Ring → Ring × Published → Type 0
Places r (r', answer) =
    (answer ≡ done)
    × (r'.drops ≡ r.drops)
    × (r'.latest_seq ≡ inc64 r.sequence)
    × (r'.latest ≡ find_free r.latest r.holds 0)

-- While the handles on frames other than the newest leave two slots, no frame is dropped: `publish`
-- takes every frame that fits a slot and makes it the newest, also while readers hold the newest
-- frame beside their last.
pub publish-Places :
    (w : World) (content : List ℕ) (timestamp_ns : ℕ)
    → IsValid w
    → w.pending ≡ none
    → w.ring.running ≡ true
    → length content ≤ w.ring.frame_bytes
    → stale w + 2 ≤ length w.ring.holds
    → Places w.ring (publish w.ring content timestamp_ns)
unfolding publish fill
publish-Places w content timestamp_ns v idle running fits room =
    reserve_cases (λ result. Places w.ring (after_reserve result content timestamp_ns)) w.ring
      (λ off. cc) (λ _ e. absurd (find_free-succeeds w v idle room e))
      (λ _ _.
        let small_enough : ltb w.ring.frame_bytes (length content) ≡ false = ground arith in
        rw small_enough (refl, refl, refl, refl))
