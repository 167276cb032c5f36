-- ===== src/HostFramePool/World.antt =====
-- The pool of pipeline/src/host_frame_pool.cpp with the threads around it. Any number of threads may
-- be between the critical section and the atomics of `acquire`, or of `release`.
use perception_pipeline.Prelude.{
  erase_one, List, Option, [], count, if◌then◌else◌, none, some, ℕ, ◌+◌, ◌-◌, ◌==◌, ◌∷◌,
}
use perception_pipeline.HostFramePool.{Pool, pop_free, stamp, push_free, count_down}

pub record World : Type 0 where
  pub pool : Pool
  -- slots that `acquire` has popped and not stamped yet
  pub starting : List ℕ
  -- slots behind live frames
  pub live : List ℕ
  -- calls of `release` that have not counted down yet
  pub finishing : ℕ

pub data Event : Type 0 where
  pops : Event
  stamps : ℕ → ℕ → Event
  pushes : ℕ → Event
  counts_down : Event

abbrev pub popped : World → Pool × Option ℕ → World
popped w (p, none) = record w { pool = p }
popped w (p, some s) = record w { pool = p; starting = s ∷ w.starting }

-- An event that does not fit the state of the threads changes nothing.
unfoldable pub step : World → Event → World
step w pops = popped w (pop_free w.pool)
step w (stamps s timestamp_ns) = if count s w.starting == 0 then w else record w {
  pool = stamp w.pool s timestamp_ns;
  starting = erase_one s w.starting;
  live = s ∷ w.live;
}
step w (pushes s) = if count s w.live == 0 then w else record w {
  pool = push_free w.pool s;
  live = erase_one s w.live;
  finishing = w.finishing + 1;
}
step w counts_down =
    if w.finishing == 0
    then w
    else record w { pool = count_down w.pool; finishing = w.finishing - 1 }

unfoldable pub run : World → List Event → World
run w [] = w
run w (e ∷ es) = run (step w e) es
