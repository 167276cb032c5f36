-- ===== src/DownloadStage.antt =====
-- pipeline/include/download_stage.hpp and pipeline/src/download_stage.cpp: the way back from the
-- device to the host. CUDA is not modelled: whether the copy could be enqueued, whether the event
-- of the oldest copy has fired, and the clock are arguments. The sinks' handles are the caller's.
-- `enqueue` and `stop` here are whole calls that no other thread comes between; Sections has their locked
-- sections, and the CUDA calls between them, one at a time.
pub mod Events
pub mod Order
pub mod Runs
pub mod Sections
pub mod Places
pub mod Leaving
pub mod Interleaved
mod Tests
use mathlib.Core.Option
use perception_pipeline.Prelude.{
  range_from, Bool, List, Option, [], false, get_or, if◌then◌else◌, inc64, map, none, not, set,
  some, true, ℕ, ◌++◌, ◌∷◌,
}
use perception_pipeline.HostFramePool
use perception_pipeline.HostFramePool.{Pool, unused}

pub record InFlight : Type 0 where
  pub frame : ℕ
  pub event : ℕ

-- The heads of `free_events` and `inflight` are the fronts of the deques.
pub record Stage : Type 0 where
  pub pool : Pool
  pub free_events : List ℕ
  pub inflight : List InFlight
  pub running : Bool
  pub enqueued : ℕ
  pub published : ℕ

abbrev pub ready : ℕ → Pool → Stage
ready slots pool = record {
  pool = pool;
  free_events = range_from 0 slots;
  inflight = [];
  running = false;
  enqueued = 0;
  published = 0;
}

-- The constructor; `none` where the pool's constructor throws.
unfoldable pub create : ℕ → ℕ → Option Stage
create slots frame_bytes = Option.map (ready slots) (HostFramePool.create slots frame_bytes)

unfoldable pub start : Stage → Stage
start s = record s { running = true }

-- The frames of the copies in flight go back to the pool, front first.
unfoldable pub release_all : Pool → List InFlight → Pool
release_all p [] = p
release_all p (f ∷ fs) = release_all (HostFramePool.release p f.frame) fs

unfoldable pub stop : Stage → Stage
stop s =
    if not s.running
    then s
    else record s { running = false; pool = release_all s.pool s.inflight; inflight = [] }

pub data Answer : Type 0 where
  accepted refused throws : Answer

-- With a frame and an event: `copied` says that both CUDA calls succeeded. A throw gives the frame
-- back, and not the event.
abbrev pub launch : Stage → ℕ → ℕ → Bool → Stage × Answer
launch s frame event copied =
    if copied
    then (
      record s {
        inflight = s.inflight ++ record { frame = frame; event = event } ∷ [];
        enqueued = inc64 s.enqueued;
      },
      accepted,
    )
    else (record s { pool = HostFramePool.release s.pool frame }, throws)

abbrev pub with_event : Stage → ℕ → List ℕ → Bool → Stage × Answer
with_event s frame [] copied = (record s { pool = HostFramePool.release s.pool frame }, refused)
with_event s frame (event ∷ rest) copied =
    launch (record s { free_events = rest }) frame event copied

abbrev pub with_frame : Stage → Pool × Option ℕ → Bool → Stage × Answer
with_frame s (pool, none) copied = (record s { pool = pool }, refused)
with_frame s (pool, some frame) copied =
    with_event (record s { pool = pool }) frame s.free_events copied

unfoldable pub enqueue : Stage → ℕ → Bool → Stage × Answer
enqueue s timestamp_ns copied = with_frame s (HostFramePool.acquire s.pool timestamp_ns) copied

-- One round of `run`: the oldest copy, if its event has fired, goes to the sinks at time `now`.
abbrev pub hand_on : Stage → InFlight → List InFlight → ℕ → Stage
hand_on s f rest now = record s {
  inflight = rest;
  free_events = s.free_events ++ f.event ∷ [];
  published = inc64 s.published;
  pool = record s.pool {
    frames =
        set s.pool.frames f.frame
          (record (get_or s.pool.frames f.frame unused) { host_ready_ns = now });
  };
}

abbrev pub poll_front : Stage → List InFlight → Bool → ℕ → Stage × Option ℕ
poll_front s [] fired now = (s, none)
poll_front s (f ∷ rest) fired now =
    if fired then (hand_on s f rest now, some f.frame) else (s, none)

unfoldable pub poll : Stage → Bool → ℕ → Stage × Option ℕ
poll s fired now = if not s.running then (s, none) else poll_front s s.inflight fired now
