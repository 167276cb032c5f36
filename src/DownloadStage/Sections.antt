-- ===== src/DownloadStage/Sections.antt =====
-- pipeline/src/download_stage.cpp one locked section at a time: the producer's enqueue, the stage's own
-- thread, start and stop, and the sinks that give frames back, in any order. One producer
-- enqueues, as the stage's one stream wants. A round of the thread is its locked section with
-- what it does to the frame it then has for itself; stop is its flag and, later, its locked section.
-- The counters enqueued and published, which no guard reads, change in the step of the section before.
use perception_pipeline.Prelude.{
  Bool, List, Option, [], count, erase_one, false, if◌then◌else◌, inc64, none, not, some, true, ℕ,
  ◌++◌, ◌==◌, ◌∷◌,
}
use perception_pipeline.HostFramePool
use perception_pipeline.HostFramePool.{Pool, release}
use perception_pipeline.DownloadStage.{InFlight, Stage, start, poll, release_all}
use perception_pipeline.DownloadStage.Order.{stamp_at}

-- Where the producer is in `enqueue`: with a frame, with its event too, or with the copy launched.
pub data Producer : Type 0 where
  outside : Producer
  reserved : ℕ → ℕ → Producer
  armed : ℕ → ℕ → ℕ → Producer
  launched : ℕ → ℕ → ℕ → Producer

pub data Event : Type 0 where
  reserves : ℕ → Event
  arms : Event
  copies : Bool → Event
  pushes : Event
  polls : Bool → ℕ → Event
  releases : ℕ → Event
  starts : Event
  halts : Event
  clears : Event

-- A frame that has left the queue of copies: to the sinks, or dropped by stop.
pub data Fate : Type 0 where
  sunk_frame : ℕ → Fate
  dropped_frame : ℕ → Fate

abbrev pub time_of : Fate → ℕ
time_of (sunk_frame t) = t
time_of (dropped_frame t) = t

-- `stopping` is a stop that has not reached its locked section; `sunk` are the slots in the sinks' hands,
-- `taken` the times of the frames that were pushed and `left` those that left, oldest first.
pub record Log : Type 0 where
  pub stage : Stage
  pub producer : Producer
  pub stopping : Bool
  pub sunk : List ℕ
  pub taken : List ℕ
  pub left : List Fate

-- The frame that pool_.acquire gives, or the return of false.
abbrev pub set_aside : Log → ℕ → Pool × Option ℕ → Log
set_aside l timestamp_ns (pool, none) = record l {
  stage = record l.stage { pool = pool };
  producer = outside;
}
set_aside l timestamp_ns (pool, some frame) = record l {
  stage = record l.stage { pool = pool };
  producer = reserved frame timestamp_ns;
}

-- The frame goes back where `enqueue` returns false or throws.
abbrev pub return_frame : Log → ℕ → Log
return_frame l frame = record l {
  stage = record l.stage { pool = release l.stage.pool frame };
  producer = outside;
}

abbrev pub arm : Log → ℕ → ℕ → List ℕ → Log
arm l frame timestamp_ns [] = return_frame l frame
arm l frame timestamp_ns (event ∷ rest) = record l {
  stage = record l.stage { free_events = rest };
  producer = armed frame event timestamp_ns;
}

abbrev pub put_in_flight : Log → ℕ → ℕ → ℕ → Log
put_in_flight l frame event timestamp_ns = record l {
  stage = record l.stage {
    inflight = l.stage.inflight ++ record { frame = frame; event = event } ∷ [];
    enqueued = inc64 l.stage.enqueued;
  };
  producer = outside;
  taken = l.taken ++ timestamp_ns ∷ [];
}

abbrev pub reserves_in : Log → Producer → ℕ → Log
reserves_in l outside timestamp_ns =
    set_aside l timestamp_ns (HostFramePool.acquire l.stage.pool timestamp_ns)
reserves_in l _ timestamp_ns = l

abbrev pub arms_in : Log → Producer → Log
arms_in l (reserved frame timestamp_ns) = arm l frame timestamp_ns l.stage.free_events
arms_in l _ = l

abbrev pub copies_in : Log → Producer → Bool → Log
copies_in l (armed frame event timestamp_ns) true = record l {
  producer = launched frame event timestamp_ns;
}
copies_in l (armed frame event timestamp_ns) false = return_frame l frame
copies_in l _ copied = l

abbrev pub pushes_in : Log → Producer → Log
pushes_in l (launched frame event timestamp_ns) = put_in_flight l frame event timestamp_ns
pushes_in l _ = l

abbrev pub handed : Log → Stage × Option ℕ → Log
handed l (s, none) = record l { stage = s }
handed l (s, some frame) = record l {
  stage = s;
  sunk = frame ∷ l.sunk;
  left = l.left ++ sunk_frame (stamp_at s.pool.frames frame) ∷ [];
}

abbrev pub drops_of : Stage → List InFlight → List Fate
drops_of s [] = []
drops_of s (f ∷ fs) = dropped_frame (stamp_at s.pool.frames f.frame) ∷ drops_of s fs

-- inflight_.clear()
abbrev pub drop_flying : Log → Log
drop_flying l = record l {
  stage = record l.stage { pool = release_all l.stage.pool l.stage.inflight; inflight = [] };
  stopping = false;
  left = l.left ++ drops_of l.stage l.stage.inflight;
}

unfoldable pub step : Log → Event → Log
step l (reserves timestamp_ns) = reserves_in l l.producer timestamp_ns
step l arms = arms_in l l.producer
step l (copies copied) = copies_in l l.producer copied
step l pushes = pushes_in l l.producer
step l (polls fired now) = handed l (poll l.stage fired now)
step l (releases frame) = if count frame l.sunk == 0 then l else record l {
  stage = record l.stage { pool = release l.stage.pool frame };
  sunk = erase_one frame l.sunk;
}
step l starts = record l { stage = start l.stage }
step l halts =
    if not l.stage.running
    then l
    else record l { stage = record l.stage { running = false }; stopping = true }
step l clears = if not l.stopping then l else drop_flying l

unfoldable pub run : Log → List Event → Log
unfolding step
run l [] = l
run l (e ∷ es) = run (step l e) es
