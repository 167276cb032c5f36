-- ===== src/HostFrameRing/Accounting.antt =====
-- What a reader of pipeline/src/host_frame_ring.cpp gets, and what it is told it missed.
use perception_pipeline.Prelude.{
  get_elem?-set_there, Bool-cases, List, Option, Option-cases, [], ap, arith, count, get_elem?,
  get_or, get_or-set_ne, inl, inr, length, ltb, none, refl, some, ℕ, ◌+◌, ◌<◌, ◌^◌, ◌∙◌, ◌∷◌, ◌≡◌,
  ◌≤◌,
}
use perception_pipeline.HostFrameRing.{
  Ring, Consumer, Frame, blank, reserve, fill, reject, take_newest, acquire_latest, release, stop,
  handle, Acquired,
}
use perception_pipeline.HostFrameRing.World.{
  World, Event, begin_publish, end_publish, acquires, drops, stops, step, run, Fits, reserved,
  acquired, begins, ends, drop_handle,
}
use perception_pipeline.HostFrameRing.Invariant.{IsValid, CopyApart}
use perception_pipeline.HostFrameRing.Publishing.{reserve_cases}
use perception_pipeline.HostFrameRing.Reading.{take_newest_cases}
use perception_pipeline.HostFrameRing.Steps.{step-IsValid}

abbrev pub frame_at : Ring → ℕ → Frame
frame_at r s = get_or r.frames s (blank 0)

frames-reserve : (w : World) → (reserved w (reserve w.ring)).ring.frames ≡ w.ring.frames
frames-reserve w =
    reserve_cases (λ result. (reserved w result).ring.frames ≡ w.ring.frames) w.ring (λ _. refl)
      (λ _ _. refl) (λ _ _. refl)

frames-begins : (w : World) (p : Option ℕ) → (begins w p).ring.frames ≡ w.ring.frames
frames-begins w none = frames-reserve w
frames-begins w (some s) = refl

frames-acquire :
    (w : World) (c : ℕ) → (acquired w (acquire_latest w.ring c)).ring.frames ≡ w.ring.frames
unfolding acquire_latest
frames-acquire w c = elim (Option-cases (get_elem? w.ring.consumers c)) [
  | inl missing ↦ rw (missing, acquire_latest)
  | inr (reader, there) ↦
      rw (there, acquire_latest)
        (take_newest_cases (λ result. (acquired w result).ring.frames ≡ w.ring.frames) w.ring c
          reader refl refl (λ _ _. refl))
]

frames-drop : (w : World) (s : ℕ) → (drop_handle w s).ring.frames ≡ w.ring.frames
unfolding release
frames-drop w s = ground arith

frames-stop : (r : Ring) → (stop r).frames ≡ r.frames
unfolding stop
frames-stop r = ground arith

ends-keeps :
    (w : World) (p : Option ℕ) (content : List ℕ) (timestamp_ns s : ℕ)
    → CopyApart p w.ring.latest w.ring.holds w.held
    → 1 ≤ count s w.held
    → frame_at (ends w p content timestamp_ns).ring s ≡ frame_at w.ring s
unfolding reject fill
ends-keeps w none content timestamp_ns s a live = refl
ends-keeps w (some t) content timestamp_ns s a live =
    elim (Bool-cases (ltb w.ring.frame_bytes (length content))) [
      | inl large ↦ rw large refl
      | inr fitting ↦ rw fitting (get_or-set_ne w.ring.frames t s _ (blank 0) (ground arith))
    ]

-- A frame in a reader's hands is not written to, whatever the other threads do.
pub step-keeps_frame :
    (w : World) (e : Event) (s : ℕ)
    → IsValid w
    → 1 ≤ count s w.held
    → frame_at (step w e).ring s ≡ frame_at w.ring s
unfolding step
step-keeps_frame w begin_publish s v live =
    ap (λ (fs : List Frame). get_or fs s (blank 0)) (frames-begins w w.pending)
step-keeps_frame w (end_publish content timestamp_ns) s v live =
    ends-keeps w w.pending content timestamp_ns s v.apart live
step-keeps_frame w (acquires c) s v live =
    ap (λ (fs : List Frame). get_or fs s (blank 0)) (frames-acquire w c)
step-keeps_frame w (drops t) s v live =
    ap (λ (fs : List Frame). get_or fs s (blank 0)) (frames-drop w t)
step-keeps_frame w stops s v live =
    ap (λ (fs : List Frame). get_or fs s (blank 0)) (frames-stop w.ring)

-- Some handle on `s` is alive all through the schedule.
abbrev pub Held : ℕ → World → List Event → Type 0
Held s w [] = Unit {0}
Held s w (e ∷ es) = (1 ≤ count s w.held) × Held s (step w e) es

-- From a valid ring, under any schedule of the threads with fewer than 2^32 - 1 handles alive at a
-- time: while some handle on a slot is alive all through, the slot's frame stays what it was.
pub run-keeps_frame :
    (w : World) (es : List Event) (s : ℕ)
    → IsValid w
    → Fits w es
    → Held s w es
    → frame_at (run w es).ring s ≡ frame_at w.ring s
unfolding run
run-keeps_frame w [] s v fits held = refl
run-keeps_frame w (e ∷ es) s v fits held =
    run-keeps_frame (step w e) es s (step-IsValid w e v fits.0) fits.1 held.1
    ∙ step-keeps_frame w e s v held.0

-- What a reader counts: it has skipped no more than it has passed, and passed no frame that is not
-- published.
abbrev pub Counts : Ring → Consumer → Type 0
Counts r reader =
    (reader.skipped ≤ reader.cursor) × (reader.cursor ≤ r.latest_seq) × (r.latest_seq < 2 ^ 64)

acquire_latest-there :
    (r : Ring) (c : ℕ) (reader : Consumer)
    → get_elem? r.consumers c ≡ some reader
    → acquire_latest r c ≡ take_newest r c reader
unfolding acquire_latest
acquire_latest-there r c reader there = rw (there, acquire_latest)

-- What `acquire_latest` promises a reader that is handed slot `s`.
abbrev pub HandsNewest : Ring → ℕ → Consumer → Ring × Acquired → ℕ → Type 0
HandsNewest r c reader (r', answer) s =
    (s ≡ r.latest)
    × ((frame_at r' s).sequence ≡ r.latest_seq)
    × (reader.cursor < r.latest_seq)
    × ((after : Consumer) × (get_elem? r'.consumers c ≡ some after)
        × (after.cursor ≡ r.latest_seq)
        × (after.skipped + reader.cursor + 1 ≡ reader.skipped + after.cursor)
        × Counts r' after)

take_newest-HandsNewest :
    (w : World) (c : ℕ) (reader : Consumer)
    → IsValid w
    → get_elem? w.ring.consumers c ≡ some reader
    → Counts w.ring reader
    → (s : ℕ) → (take_newest w.ring c reader).1 ≡ handle s
    → HandsNewest w.ring c reader (take_newest w.ring c reader) s
take_newest-HandsNewest w c reader v there counts =
    take_newest_cases
      (λ result. (s : ℕ) → result.1 ≡ handle s → HandsNewest w.ring c reader result s) w.ring c
      reader (λ s h. cc) (λ s h. cc)
      (λ _ newer s h. (
        ground arith,
        ground (arith, v.newest),
        newer,
        (_, get_elem?-set_there w.ring.consumers c _ reader there, refl, omega arith, omega arith),
      ))

-- A reader that is handed a frame is handed the newest one, which it has not seen before; its
-- cursor moves to that frame, and `skipped` grows by the number of the frames in between.
pub acquire_latest-HandsNewest :
    (w : World) (c s : ℕ) (reader : Consumer)
    → IsValid w
    → get_elem? w.ring.consumers c ≡ some reader
    → Counts w.ring reader
    → (acquire_latest w.ring c).1 ≡ handle s
    → HandsNewest w.ring c reader (acquire_latest w.ring c) s
acquire_latest-HandsNewest w c s reader v there counts =
    rw (acquire_latest-there w.ring c reader there)
      (take_newest-HandsNewest w c reader v there counts s)
