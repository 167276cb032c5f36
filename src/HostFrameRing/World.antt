-- ===== src/HostFrameRing/World.antt =====
-- The ring of pipeline/src/host_frame_ring.cpp with the threads around it: the acquisition thread
-- between the two sections of `publish`, and the handles that the readers have not dropped yet.
-- A schedule is a list of critical sections in the order in which they got the lock.
use perception_pipeline.Prelude.{
  erase_one, ℕ, ◌+◌, ◌≤◌, List, [], ◌∷◌, Option, none, some, ◌==◌, if◌then◌else◌, length, count,
}
use perception_pipeline.HostFrameRing.{
  Ring, Reserved, stopped, full, slot, Acquired, null, waiting, handle, reserve, fill_or_reject,
  acquire_latest, release, stop,
}

pub record World : Type 0 where
  pub ring : Ring
  -- the slot that `publish` is copying into
  pub pending : Option ℕ
  -- the slots behind the live handles
  pub held : List ℕ

pub data Event : Type 0 where
  begin_publish : Event
  end_publish : List ℕ → ℕ → Event
  acquires : ℕ → Event
  drops : ℕ → Event
  stops : Event

abbrev pub reserved : World → Ring × Reserved → World
reserved w (r, stopped) = record w { ring = r }
reserved w (r, full) = record w { ring = r }
reserved w (r, slot s) = record w { ring = r; pending = some s }

-- The acquisition thread is in one call of `publish` at a time.
abbrev pub begins : World → Option ℕ → World
begins w none = reserved w (reserve w.ring)
begins w (some s) = w

abbrev pub ends : World → Option ℕ → List ℕ → ℕ → World
ends w none content timestamp_ns = w
ends w (some s) content timestamp_ns = record w {
  ring = (fill_or_reject w.ring s content timestamp_ns).0;
  pending = none;
}

abbrev pub acquired : World → Ring × Acquired → World
acquired w (r, null) = record w { ring = r }
acquired w (r, waiting) = record w { ring = r }
acquired w (r, handle s) = record w { ring = r; held = s ∷ w.held }

-- A handle that does not exist is not dropped.
abbrev pub drop_handle : World → ℕ → World
drop_handle w s =
    if count s w.held == 0
    then w
    else record w { ring = release w.ring s; held = erase_one s w.held }

unfoldable pub step : World → Event → World
step w begin_publish = begins w w.pending
step w (end_publish content timestamp_ns) = ends w w.pending content timestamp_ns
step w (acquires c) = acquired w (acquire_latest w.ring c)
step w (drops s) = drop_handle w s
step w stops = record w { ring = stop w.ring }

unfoldable pub run : World → List Event → World
run w [] = w
run w (e ∷ es) = run (step w e) es

-- The holds of a slot are a uint32_t: fewer than 2^32 - 1 handles are alive at any time.
abbrev pub Fits : World → List Event → Type 0
Fits w [] = Unit {0}
Fits w (e ∷ es) = (length w.held + 2 ≤ 0xffff_ffff) × Fits (step w e) es
