-- ===== src/DownloadStage/Places.antt =====
-- Where the slots, events and times of pipeline/src/download_stage.cpp are between any two of its locked
-- sections, and the sections of enqueue.
use perception_pipeline.Prelude.{
  Bool, List, Option, [], ap, append_assoc, arith, count, count-append, false, map, none, refl,
  some, subst, sym, true, ℕ, ◌++◌, ◌+◌, ◌<◌, ◌^◌, ◌∙◌, ◌∷◌, ◌≡◌, ◌≤◌,
}
use perception_pipeline.HostFramePool.{release, Pool}
use perception_pipeline.HostFramePool.Exclusive.{IsExclusive}
use perception_pipeline.HostFramePool.Whole.{acquire-Acquires, Acquires, quiet, release-IsExclusive}
use perception_pipeline.DownloadStage.{InFlight, Stage}
use perception_pipeline.DownloadStage.Events.{
  slots_of, events_of, relist-IsExclusive, count-launched, length-launched, events_of-append,
}
use perception_pipeline.DownloadStage.Order.{
  stamp_at, stamps_of, queued, stamps_of-append, stamps_of-Takes,
}
use perception_pipeline.DownloadStage.Runs.{erase_one-head}
use perception_pipeline.DownloadStage.Sections.{
  Producer, outside, reserved, armed, launched, Fate, time_of, Log, set_aside, return_frame, arm,
  put_in_flight, reserves_in, arms_in, copies_in, pushes_in,
}

-- The slot, and the event, that the producer has.
abbrev pub slot_in_hand : Producer → List ℕ
slot_in_hand outside = []
slot_in_hand (reserved frame t) = frame ∷ []
slot_in_hand (armed frame event t) = frame ∷ []
slot_in_hand (launched frame event t) = frame ∷ []

abbrev pub event_in_hand : Producer → List ℕ
event_in_hand (armed frame event t) = event ∷ []
event_in_hand (launched frame event t) = event ∷ []
event_in_hand _ = []

-- The frame in the producer's hand carries the time it was enqueued with.
abbrev pub HasTime : Stage → Producer → Type 0
HasTime s outside = true ≡ true
HasTime s (reserved frame t) = stamp_at s.pool.frames frame ≡ t
HasTime s (armed frame event t) = stamp_at s.pool.frames frame ≡ t
HasTime s (launched frame event t) = stamp_at s.pool.frames frame ≡ t

pub record InOrder (n : ℕ) (s : Stage) (x : Producer) (sunk taken : List ℕ) (left : List Fate)
    : Type 0 where
  pub slots : IsExclusive n (quiet s.pool (slot_in_hand x ++ (slots_of s.inflight ++ sunk)))
  pub small : n + 1 < 2 ^ 32
  pub events :
      (i : ℕ)
      → count i s.free_events + count i (events_of s.inflight) + count i (event_in_hand x) ≤ 1
  pub timed : HasTime s x
  pub order : taken ≡ map time_of left ++ queued s

abbrev pub Holds : ℕ → Log → Type 0
Holds n l = InOrder n l.stage l.producer l.sunk l.taken l.left

drops-IsExclusive :
    (n : ℕ) (p : Pool) (live : List ℕ) (dropped : ℕ)
    → IsExclusive n (quiet p live)
    → IsExclusive n (quiet (record p { drops = dropped }) live)
drops-IsExclusive n p live dropped v = record {
  shape = v.shape;
  small = v.small;
  places = v.places;
  total = v.total;
  used = v.used;
}

module _ (n : ℕ) (l : Log) where
  return_frame-Holds :
      (x : Producer) (frame : ℕ)
      → slot_in_hand x ≡ frame ∷ []
      → InOrder n l.stage x l.sunk l.taken l.left
      → Holds n (return_frame l frame)
  unfolding release
  return_frame-Holds x frame e j =
      let rest = slots_of l.stage.inflight ++ l.sunk in
      let mine = subst (λ xs. IsExclusive n (quiet l.stage.pool (xs ++ rest))) e j.slots in
      record {
        slots =
            subst (λ xs. IsExclusive n (quiet (release l.stage.pool frame) xs))
              (erase_one-head frame rest)
              (release-IsExclusive n l.stage.pool (frame ∷ rest) frame mine (ground arith));
        small = j.small;
        events = λ i. omega (arith, j.events i);
        timed = refl;
        order = j.order;
      }

  set_aside-Holds :
      (t : ℕ) (result : Pool × Option ℕ)
      → InOrder n l.stage outside l.sunk l.taken l.left
      → Acquires n l.stage.pool (slots_of l.stage.inflight ++ l.sunk) t result
      → Holds n (set_aside l t result)
  set_aside-Holds t (p', none) j dry = record {
    slots =
        subst (λ q. IsExclusive n (quiet q (slots_of l.stage.inflight ++ l.sunk))) (sym dry.counted)
          (drops-IsExclusive n l.stage.pool _ _ j.slots);
    small = j.small;
    events = j.events;
    timed = refl;
    order =
        j.order
        ∙ ap (λ (q : Pool). map time_of l.left ++ stamps_of q.frames l.stage.inflight)
            (sym dry.counted);
  }
  set_aside-Holds t (p', some frame) j a = record {
    slots = a.valid;
    small = j.small;
    events = j.events;
    timed = a.stamped;
    order =
        j.order
        ∙ ap (◌++◌ (map time_of l.left)) (sym (stamps_of-Takes n l.stage l.sunk t frame p' a));
  }

  arm-Holds :
      (frame t : ℕ) (free : List ℕ)
      → l.stage.free_events ≡ free
      → InOrder n l.stage (reserved frame t) l.sunk l.taken l.left
      → Holds n (arm l frame t free)
  arm-Holds frame t [] e j = return_frame-Holds (reserved frame t) frame refl j
  arm-Holds frame t (event ∷ rest) e j = record {
    slots = j.slots;
    small = j.small;
    events = λ i. ground (arith, j.events i, ap (count i) e);
    timed = j.timed;
    order = j.order;
  }

  put_in_flight-Holds :
      (frame event t : ℕ)
      → InOrder n l.stage (launched frame event t) l.sunk l.taken l.left
      → Holds n (put_in_flight l frame event t)
  put_in_flight-Holds frame event t j =
      let f : InFlight = record { frame = frame; event = event } in
      let fs = l.stage.inflight in
      record {
        slots =
            relist-IsExclusive n l.stage.pool (frame ∷ slots_of fs ++ l.sunk) _
              (λ i. count-launched i fs f l.sunk) (length-launched fs f l.sunk) j.slots;
        small = j.small;
        events = λ i. ground (
          arith,
          j.events i,
          ap (count i) (events_of-append fs (f ∷ [])),
          count-append i (events_of fs) (event ∷ []),
        );
        timed = refl;
        order =
            ap (λ ts. ts ++ t ∷ []) j.order
            ∙ (append_assoc (map time_of l.left) _ _
                ∙ ap (◌++◌ (map time_of l.left)) (
                    ap (λ u. queued l.stage ++ u ∷ []) (sym j.timed)
                    ∙ sym (stamps_of-append l.stage.pool.frames fs (f ∷ []))));
      }

  pub reserves-Holds :
      (x : Producer) (t : ℕ)
      → InOrder n l.stage x l.sunk l.taken l.left
      → Holds n l
      → Holds n (reserves_in l x t)
  reserves-Holds outside t j k =
      set_aside-Holds t _ j (acquire-Acquires n l.stage.pool _ t j.slots j.small)
  reserves-Holds (reserved frame u) t j k = k
  reserves-Holds (armed frame event u) t j k = k
  reserves-Holds (launched frame event u) t j k = k

  pub arms-Holds :
      (x : Producer) → InOrder n l.stage x l.sunk l.taken l.left → Holds n l → Holds n (arms_in l x)
  arms-Holds outside j k = k
  arms-Holds (reserved frame t) j k = arm-Holds frame t l.stage.free_events refl j
  arms-Holds (armed frame event t) j k = k
  arms-Holds (launched frame event t) j k = k

  pub copies-Holds :
      (x : Producer) (copied : Bool)
      → InOrder n l.stage x l.sunk l.taken l.left
      → Holds n l
      → Holds n (copies_in l x copied)
  copies-Holds outside copied j k = k
  copies-Holds (reserved frame t) copied j k = k
  copies-Holds (armed frame event t) true j k = record {
    slots = j.slots;
    small = j.small;
    events = j.events;
    timed = j.timed;
    order = j.order;
  }
  copies-Holds (armed frame event t) false j k =
      return_frame-Holds (armed frame event t) frame refl j
  copies-Holds (launched frame event t) copied j k = k

  pub pushes-Holds :
      (x : Producer)
      → InOrder n l.stage x l.sunk l.taken l.left
      → Holds n l
      → Holds n (pushes_in l x)
  pushes-Holds outside j k = k
  pushes-Holds (reserved frame t) j k = k
  pushes-Holds (armed frame event t) j k = k
  pushes-Holds (launched frame event t) j k = put_in_flight-Holds frame event t j
