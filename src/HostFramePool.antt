-- ===== src/HostFramePool.antt =====
-- pipeline/include/host_frame_pool.hpp and pipeline/src/host_frame_pool.cpp: a bounded pool of
-- pinned host buffers. A frame's pixels are not part of the state, since only the code that holds
-- the frame writes them; the pinned block and its release are CUDA's. The atomics that `acquire`
-- and `release` update outside the lock are functions of their own.
pub mod World
pub mod Exclusive
pub mod Whole
mod Tests
use perception_pipeline.Prelude.{
  range_from, List, Option, [], dec32, if◌then◌else◌, inc32, inc64, max, none, replicate, set, some,
  ℕ, ◌==◌, ◌∷◌,
}

-- The fields of `HostFrame` that the pool writes.
pub record Stamp : Type 0 where
  pub timestamp_ns : ℕ
  pub host_ready_ns : ℕ
  pub sequence : ℕ

-- `Store`. The head of `free` is the back of the vector, so slot 0 is pushed last.
pub record Pool : Type 0 where
  pub frame_bytes : ℕ
  pub frames : List Stamp
  pub free : List ℕ
  pub in_use : ℕ
  pub peak_in_use : ℕ
  pub acquired : ℕ
  pub drops : ℕ
  pub sequence : ℕ

abbrev pub unused : Stamp
unused = record { timestamp_ns = 0; host_ready_ns = 0; sequence = 0 }

abbrev pub filled_up : ℕ → ℕ → Pool
filled_up slots frame_bytes = record {
  frame_bytes = frame_bytes;
  frames = replicate slots unused;
  free = range_from 0 slots;
  in_use = 0;
  peak_in_use = 0;
  acquired = 0;
  drops = 0;
  sequence = 0;
}

-- The constructor; `none` where it throws.
unfoldable pub create : ℕ → ℕ → Option Pool
create slots frame_bytes =
    if slots == 0
    then none
    else if frame_bytes == 0
    then none
    else some (filled_up slots frame_bytes)

abbrev pub pop_from : Pool → List ℕ → Pool × Option ℕ
pop_from p [] = (record p { drops = inc64 p.drops }, none)
pop_from p (s ∷ rest) = (record p { free = rest }, some s)

-- The critical section of `acquire`: a slot, or a counted drop.
unfoldable pub pop_free : Pool → Pool × Option ℕ
pop_free p = pop_from p p.free

abbrev pub stamped_as : Pool → ℕ → Stamp
stamped_as p timestamp_ns = record {
  timestamp_ns = timestamp_ns;
  host_ready_ns = 0;
  sequence = p.sequence;
}

-- The rest of `acquire`: the counters, and the stamps of the frame.
unfoldable pub stamp : Pool → ℕ → ℕ → Pool
stamp p s timestamp_ns = record p {
  in_use = inc32 p.in_use;
  peak_in_use = max p.peak_in_use (inc32 p.in_use);
  acquired = inc64 p.acquired;
  frames = set p.frames s (stamped_as p timestamp_ns);
  sequence = inc64 p.sequence;
}

abbrev pub stamp_popped : Pool × Option ℕ → ℕ → Pool × Option ℕ
stamp_popped (p, none) timestamp_ns = (p, none)
stamp_popped (p, some s) timestamp_ns = (stamp p s timestamp_ns, some s)

-- `acquire` with no other thread in between.
unfoldable pub acquire : Pool → ℕ → Pool × Option ℕ
acquire p timestamp_ns = stamp_popped (pop_free p) timestamp_ns

-- The critical section of `Store::release`, and the decrement behind it.
unfoldable pub push_free : Pool → ℕ → Pool
push_free p s = record p { free = s ∷ p.free }

unfoldable pub count_down : Pool → Pool
count_down p = record p { in_use = dec32 p.in_use }

-- `Store::release` with no other thread in between.
unfoldable pub release : Pool → ℕ → Pool
unfolding push_free count_down
release p s = count_down (push_free p s)
