-- ===== src/LatestFrame.antt =====
-- pipeline/include/latest_frame.hpp and pipeline/src/latest_frame.cpp: a push sink turned into a
-- pull of the newest frame. A frame is any value, since the class moves references only. Each
-- function returns the state with the frame that it gives back to the producer's pool, or hands out.
pub mod Mailbox
mod Tests
use perception_pipeline.Prelude.{
  Bool, Option, false, if◌then◌else◌, inc64, none, not, some, true, ℕ, ◌==◌,
}

pub record LatestFrame {ℓ} (A : Type ℓ) : Type ℓ where
  pub latest : Option A
  pub running : Bool
  pub offered : ℕ
  pub skipped : ℕ

module _ {ℓ} {A : Type ℓ} where
  abbrev pub holding : Option A → ℕ
  holding none = 0
  holding (some a) = 1

  unfoldable pub create : LatestFrame A
  create = record { latest = none; running = true; offered = 0; skipped = 0 }

  -- The callable that `sink` returns, with the frame that it displaces.
  unfoldable pub offer : LatestFrame A → A → LatestFrame A × Option A
  offer h frame = if not h.running then (h, none) else (
    record h {
      offered = inc64 h.offered;
      skipped = (if holding h.latest == 0 then h.skipped else inc64 h.skipped);
      latest = some frame;
    },
    h.latest,
  )

  unfoldable pub take_latest : LatestFrame A → LatestFrame A × Option A
  take_latest h = if not h.running then (h, none) else (record h { latest = none }, h.latest)

  -- `none` while the wait goes on; the inner option is null once the holder has stopped.
  unfoldable pub acquire_latest : LatestFrame A → Option (LatestFrame A × Option A)
  acquire_latest h =
      if not h.running
      then some (h, none)
      else if holding h.latest == 0
      then none
      else some (record h { latest = none }, h.latest)

  -- With the frame that it drops.
  unfoldable pub stop : LatestFrame A → LatestFrame A × Option A
  stop h =
      if not h.running then (h, none) else (record h { running = false; latest = none }, h.latest)
