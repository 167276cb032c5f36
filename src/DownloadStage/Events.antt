-- ===== src/DownloadStage/Events.antt =====
-- The events of pipeline/src/download_stage.cpp: there is one for each free slot of the pool, as
-- long as no copy fails to start and the stage is not stopped with copies in flight.
use perception_pipeline.Prelude.{
  length-range_from, count-range_from, Bool, List, Option, [], ap, arith, count, count-append,
  false, get_or, if◌then◌else◌, inc64, inl, inr, length, length-append, length-set, ltb, none, not,
  refl, some, subst, suc, sym, true, ℕ, ◌++◌, ◌+◌, ◌<◌, ◌^◌, ◌∷◌, ◌≡◌, ◌⊎◌,
}
use perception_pipeline.HostFramePool.{Pool, Stamp, unused}
use perception_pipeline.HostFramePool.Exclusive.{IsExclusive}
use perception_pipeline.HostFramePool.Whole.{quiet, Acquires, Takes, acquire-Acquires}
use perception_pipeline.DownloadStage.{
  ready, InFlight, Stage, Answer, accepted, refused, enqueue, poll, with_frame, with_event,
  poll_front,
}

abbrev pub slots_of : List InFlight → List ℕ
slots_of [] = []
slots_of (f ∷ fs) = f.frame ∷ slots_of fs

abbrev pub events_of : List InFlight → List ℕ
events_of [] = []
events_of (f ∷ fs) = f.event ∷ events_of fs

-- `sunk` are the slots behind the frames that sinks hold.
pub record IsSound (n : ℕ) (s : Stage) (sunk : List ℕ) : Type 0 where
  pub pool : IsExclusive n (quiet s.pool (slots_of s.inflight ++ sunk))
  pub small : n + 1 < 2 ^ 32
  pub events :
      (j : ℕ) → count j s.free_events + count j (events_of s.inflight) ≡ (if ltb j n then 1 else 0)
  pub paired : length s.free_events + length s.inflight ≡ n

-- A new stage on a new pool is sound.
pub ready-IsSound :
    (n : ℕ) (p : Pool) → n + 1 < 2 ^ 32 → IsExclusive n (quiet p []) → IsSound n (ready n p) []
ready-IsSound n p h v = record {
  pool = v;
  small = h;
  events = λ j. ground (arith, count-range_from 0 n j);
  paired = omega (arith, length-range_from 0 n);
}

pub events_of-append : (fs gs : List InFlight) → events_of (fs ++ gs) ≡ events_of fs ++ events_of gs
events_of-append [] gs = refl
events_of-append (f ∷ fs) gs = ap (◌∷◌ f.event) (events_of-append fs gs)

pub count-launched :
    (i : ℕ) (fs : List InFlight) (f : InFlight) (sunk : List ℕ)
    → count i (f.frame ∷ slots_of fs ++ sunk) ≡ count i (slots_of (fs ++ f ∷ []) ++ sunk)
count-launched i [] f sunk = refl
count-launched i (g ∷ fs) f sunk = omega (arith, count-launched i fs f sunk)

pub length-launched :
    (fs : List InFlight) (f : InFlight) (sunk : List ℕ)
    → length (f.frame ∷ slots_of fs ++ sunk) ≡ length (slots_of (fs ++ f ∷ []) ++ sunk)
length-launched [] f sunk = refl
length-launched (g ∷ fs) f sunk = omega (arith, length-launched fs f sunk)

length-slots_of : (fs : List InFlight) → length (slots_of fs) ≡ length fs
length-slots_of [] = refl
length-slots_of (f ∷ fs) = ap suc (length-slots_of fs)

-- Of the live frames only the numbers count.
pub relist-IsExclusive :
    (n : ℕ) (p : Pool) (xs ys : List ℕ)
    → ((i : ℕ) → count i xs ≡ count i ys)
    → length xs ≡ length ys
    → IsExclusive n (quiet p xs)
    → IsExclusive n (quiet p ys)
relist-IsExclusive n p xs ys same long v = record {
  shape = v.shape;
  small = v.small;
  places = λ i. omega (arith, v.places i, same i);
  total = omega (arith, v.total);
  used = omega (arith, v.used);
}

-- What a call of `enqueue` leaves: all sound, and its answer with the counters.
abbrev pub Enqueues : ℕ → Stage → List ℕ → Stage × Answer → Type 0
Enqueues n s sunk (s', answer) =
    IsSound n s' sunk
    × (((answer ≡ accepted) × (s'.enqueued ≡ inc64 s.enqueued) × (s'.pool.drops ≡ s.pool.drops))
        ⊎ ((answer ≡ refused) × (s.pool.free ≡ []) × (s'.pool.drops ≡ inc64 s.pool.drops)))

with_event-Enqueues :
    (n : ℕ) (s : Stage) (sunk : List ℕ) (timestamp_ns frame : ℕ) (p' : Pool) (free : List ℕ)
    → s.free_events ≡ free
    → IsSound n s sunk
    → Takes n s.pool (slots_of s.inflight ++ sunk) timestamp_ns frame p'
    → Enqueues n s sunk (with_event (record s { pool = p' }) frame free true)
with_event-Enqueues n s sunk timestamp_ns frame p' [] e v t = absurd (
    ground (
      arith,
      v.paired,
      t.valid.total,
      length-append (slots_of s.inflight) sunk,
      length-slots_of s.inflight,
    ))
with_event-Enqueues n s sunk timestamp_ns frame p' (event ∷ rest) e v t =
    let f : InFlight = record { frame = frame; event = event } in
    (
      record {
        pool =
            relist-IsExclusive n p' (frame ∷ slots_of s.inflight ++ sunk) _
              (λ i. count-launched i s.inflight f sunk) (length-launched s.inflight f sunk) t.valid;
        small = v.small;
        events = λ j. ground (
          arith,
          v.events j,
          events_of-append s.inflight (f ∷ []),
          count-append j (events_of s.inflight) (event ∷ []),
        );
        paired = ground (arith, v.paired, length-append s.inflight (f ∷ []));
      },
      inl (refl, refl, t.drops),
    )

drops-IsSound :
    (n : ℕ) (s : Stage) (sunk : List ℕ) (dropped : ℕ)
    → IsSound n s sunk
    → IsSound n (record s { pool = record s.pool { drops = dropped } }) sunk
drops-IsSound n s sunk dropped v = record {
  pool = record {
    shape = v.pool.shape;
    small = v.pool.small;
    places = v.pool.places;
    total = v.pool.total;
    used = v.pool.used;
  };
  small = v.small;
  events = v.events;
  paired = v.paired;
}

with_frame-Enqueues :
    (n : ℕ) (s : Stage) (sunk : List ℕ) (timestamp_ns : ℕ) (result : Pool × Option ℕ)
    → IsSound n s sunk
    → Acquires n s.pool (slots_of s.inflight ++ sunk) timestamp_ns result
    → Enqueues n s sunk (with_frame s result true)
with_frame-Enqueues n s sunk timestamp_ns (p', none) v dry = (
  subst (λ q. IsSound n (record s { pool = q }) sunk) (sym dry.counted)
      (drops-IsSound n s sunk (inc64 s.pool.drops) v),
  inr (refl, dry.empty, ap (λ (q : Pool). q.drops) dry.counted),
)
with_frame-Enqueues n s sunk timestamp_ns (p', some frame) v t =
    with_event-Enqueues n s sunk timestamp_ns frame p' s.free_events refl v t

-- On a sound stage, which has as many free events and copies in flight as its pool has slots (so that no copy has
-- failed to start, and no stop has dropped one), if CUDA takes the copy, a call of `enqueue` keeps it sound, and
-- refuses a frame only when the pool is dry, which the pool counts as a drop: its branch for a free frame with
-- no free event is not taken.
pub enqueue-Enqueues :
    (n : ℕ) (s : Stage) (sunk : List ℕ) (timestamp_ns : ℕ)
    → IsSound n s sunk
    → Enqueues n s sunk (enqueue s timestamp_ns true)
unfolding enqueue
enqueue-Enqueues n s sunk timestamp_ns v =
    with_frame-Enqueues n s sunk timestamp_ns _ v
      (acquire-Acquires n s.pool _ timestamp_ns v.pool v.small)

-- What a round of `run` leaves: all sound, with the frame that it hands on in the sinks' hands.
abbrev pub Polls : ℕ → List ℕ → Stage × Option ℕ → Type 0
Polls n sunk (s', none) = IsSound n s' sunk
Polls n sunk (s', some frame) = IsSound n s' (frame ∷ sunk)

pub count-handed :
    (i frame : ℕ) (xs sunk : List ℕ) → count i (frame ∷ xs ++ sunk) ≡ count i (xs ++ frame ∷ sunk)
count-handed i frame xs sunk =
    omega (arith, count-append i xs sunk, count-append i xs (frame ∷ sunk))

pub length-handed :
    (frame : ℕ) (xs sunk : List ℕ) → length (frame ∷ xs ++ sunk) ≡ length (xs ++ frame ∷ sunk)
length-handed frame xs sunk = omega (arith, length-append xs sunk, length-append xs (frame ∷ sunk))

poll_front-Polls :
    (n : ℕ) (s : Stage) (sunk : List ℕ) (fs : List InFlight) (fired : Bool) (now : ℕ)
    → s.inflight ≡ fs
    → IsSound n s sunk
    → Polls n sunk (poll_front s fs fired now)
poll_front-Polls n s sunk [] fired now e v = v
poll_front-Polls n s sunk (f ∷ rest) false now e v = v
poll_front-Polls n s sunk (f ∷ rest) true now e v =
    let was : Stamp = get_or s.pool.frames f.frame unused in
    record {
      pool = record {
        shape = omega (
          arith,
          v.pool.shape,
          length-set s.pool.frames f.frame (record was { host_ready_ns = now }),
        );
        small = v.pool.small;
        places = λ i. ground (arith, v.pool.places i, count-handed i f.frame (slots_of rest) sunk);
        total = ground (arith, v.pool.total, length-handed f.frame (slots_of rest) sunk);
        used = ground (arith, v.pool.used, length-handed f.frame (slots_of rest) sunk);
      };
      small = v.small;
      events = λ j. ground (arith, v.events j, count-append j s.free_events (f.event ∷ []));
      paired = ground (arith, v.paired, length-append s.free_events (f.event ∷ []));
    }

-- Each round of `run` keeps the stage sound: the event of a copy that has retired is free again,
-- and its frame goes from the copies in flight to the sinks.
pub poll-Polls :
    (n : ℕ) (s : Stage) (sunk : List ℕ) (fired : Bool) (now : ℕ)
    → IsSound n s sunk
    → Polls n sunk (poll s fired now)
unfolding poll
poll-Polls n s sunk fired now v =
    elim s.running
      as (λ b. Polls n sunk (if not b then (s, none) else poll_front s s.inflight fired now)) [
        | true ↦ poll_front-Polls n s sunk s.inflight fired now refl v
        | false ↦ v
      ]
