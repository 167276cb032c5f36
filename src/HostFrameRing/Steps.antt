-- ===== src/HostFrameRing/Steps.antt =====
-- Every critical section of pipeline/src/host_frame_ring.cpp keeps the slot bookkeeping, in every
-- order in which the threads can take the lock.
use perception_pipeline.Prelude.{
  [], ltb, ◌∷◌, refl, not, if◌then◌else◌, false, ◌≤◌, true, inl, inr, Bool-cases, Option, List,
  length, none, some, ℕ, ◌+◌, ◌≡◌,
}
use perception_pipeline.HostFrameRing.{stop}
use perception_pipeline.HostFrameRing.World.{
  stops, acquires, drops, end_publish, begin_publish, begin_publish, drops, acquires, end_publish,
  Fits, Event, run, step, ends, begins, World,
}
use perception_pipeline.HostFrameRing.Invariant.{IsValid}
use perception_pipeline.HostFrameRing.Publishing.{
  flags-IsValid, reserve-IsValid, reject-IsValid, fill-IsValid,
}
use perception_pipeline.HostFrameRing.Reading.{drop_handle-IsValid, acquire-IsValid}

ends-IsValid :
    (w : World) (p : Option ℕ) (content : List ℕ) (timestamp_ns : ℕ)
    → w.pending ≡ p
    → IsValid w
    → IsValid (ends w p content timestamp_ns)
ends-IsValid w none content timestamp_ns e v = v
ends-IsValid w (some s) content timestamp_ns e v =
    elim (Bool-cases (ltb w.ring.frame_bytes (length content))) [
      | inl large ↦ rw large (reject-IsValid w s v e)
      | inr fitting ↦ rw fitting (fill-IsValid w s content timestamp_ns v e)
    ]

begins-IsValid : (w : World) (p : Option ℕ) → w.pending ≡ p → IsValid w → IsValid (begins w p)
begins-IsValid w none e v = reserve-IsValid w v e
begins-IsValid w (some s) e v = v

stop-IsValid : (w : World) → IsValid w → IsValid (record w { ring = stop w.ring })
unfolding stop
stop-IsValid w v =
    elim w.ring.running
      as (λ b.
        IsValid (record w { ring = if not b then w.ring else record w.ring { running = false } })) [
          | true ↦ flags-IsValid w w.ring.publishing false w.ring.drops v
          | false ↦ v
        ]

-- Every critical section keeps the bookkeeping.
pub step-IsValid :
    (w : World) (e : Event) → IsValid w → length w.held + 2 ≤ 0xffff_ffff → IsValid (step w e)
unfolding step
step-IsValid w begin_publish v fits = begins-IsValid w w.pending refl v
step-IsValid w (end_publish content timestamp_ns) v fits =
    ends-IsValid w w.pending content timestamp_ns refl v
step-IsValid w (acquires c) v fits = acquire-IsValid w c v fits
step-IsValid w (drops s) v fits = drop_handle-IsValid w s v
step-IsValid w stops v fits = stop-IsValid w v

-- Every schedule of the threads keeps the ring valid, as long as fewer than 2^32 - 1 handles are alive
-- at a time.
pub run-IsValid : (w : World) (es : List Event) → IsValid w → Fits w es → IsValid (run w es)
unfolding run
run-IsValid w [] v fits = v
run-IsValid w (e ∷ es) v fits = run-IsValid (step w e) es (step-IsValid w e v fits.0) fits.1
