-- ===== src/HeapFrameSink/Runs.antt =====
-- Any run of the transport and the reader, who releases what pop gave it.
use perception_pipeline.Ros.Replay.Slots.{FrameMeta}
use perception_pipeline.HeapFrameSink.{
  stop, release, in_flight, pop, filled, Sink, commit, Popped, is_idle,
}
use perception_pipeline.Prelude.{
  List, Option, [], ap, append_assoc, arith, count, count-append, erase_one, false, if◌then◌else◌,
  none, refl, some, sym, true, ℕ, ◌++◌, ◌+◌, ◌==◌, ◌∙◌, ◌∷◌, ◌≡◌,
}

-- The slots that the reader holds, and the frames that were committed and handed out.
pub record World : Type 0 where
  pub sink : Sink
  pub reading : List ℕ
  pub committed : List (ℕ × FrameMeta)
  pub handed : List (ℕ × FrameMeta)

pub data Event : Type 0 where
  commits : ℕ → FrameMeta → Event
  releases : ℕ → Event
  pops stops : Event

abbrev pub after_commit : World → ℕ → FrameMeta → Option Sink → World
after_commit w slot m none = w
after_commit w slot m (some s) = record w { sink = s; committed = w.committed ++ (slot, m) ∷ [] }

abbrev pub after_pop : World → Popped → Option (ℕ × FrameMeta) → World
after_pop w p none = record w { sink = p.sink }
after_pop w p (some (slot, m)) = record w {
  sink = p.sink;
  reading = slot ∷ w.reading;
  handed = w.handed ++ (slot, m) ∷ [];
}

abbrev pub after_release : World → ℕ → Option Sink → World
after_release w slot none = w
after_release w slot (some s) = record w { sink = s; reading = erase_one slot w.reading }

unfoldable pub step : Event → World → World
unfolding commit pop release stop
step (commits slot m) w = after_commit w slot m (commit w.sink slot m)
step pops w = after_pop w (pop w.sink) (pop w.sink).frame
step (releases slot) w =
    if count slot w.reading == 0 then w else after_release w slot (release w.sink slot)
step stops w = record w { sink = stop w.sink }

abbrev pub run : List Event → World → World
run [] w = w
run (e ∷ es) w = run es (step e w)

abbrev pub frames_in : (ℕ → FrameMeta) → List ℕ → List (ℕ × FrameMeta)
frames_in meta [] = []
frames_in meta (s ∷ ss) = (s, meta s) ∷ frames_in meta ss

-- A slot is in flight while it waits or is read, and in one place only; frames come out as they went in.
pub record Tidy (w : World) : Type 0 where
  pub flights :
      (s : ℕ)
      → count s w.sink.ready + count s w.reading ≡ (if is_idle (w.sink.state s) then 0 else 1)
  pub order : w.committed ≡ w.handed ++ frames_in w.sink.meta w.sink.ready

frames_in-same :
    (meta : ℕ → FrameMeta) (slot : ℕ) (m : FrameMeta) (ss : List ℕ)
    → count slot ss ≡ 0
    → frames_in (λ j. if j == slot then m else meta j) ss ≡ frames_in meta ss
frames_in-same meta slot m [] h = refl
frames_in-same meta slot m (s ∷ ss) h =
    let other : (s == slot) ≡ false = ground (arith, h) in
    let rest = frames_in-same meta slot m ss (ground (arith, h)) in
    rw other (ap (λ fs. (s, meta s) ∷ fs) rest)

frames_in-append :
    (meta : ℕ → FrameMeta) (ss : List ℕ) (s : ℕ)
    → frames_in meta (ss ++ s ∷ []) ≡ frames_in meta ss ++ (s, meta s) ∷ []
frames_in-append meta [] s = refl
frames_in-append meta (t ∷ ss) s = ap (λ fs. (t, meta t) ∷ fs) (frames_in-append meta ss s)

pub filled-Tidy :
    (w : World) (slot : ℕ) (m : FrameMeta)
    → is_idle (w.sink.state slot) ≡ true
    → Tidy w
    → Tidy (after_commit w slot m (some (filled w.sink slot m)))
filled-Tidy w slot m e h =
    let free : count slot w.sink.ready + count slot w.reading ≡ 0 =
      h.flights slot ∙ ap (λ t. if t then 0 else 1) e in
    let none_waits : count slot w.sink.ready ≡ 0 = omega (arith, free) in
    let meta : ℕ → FrameMeta = λ j. if j == slot then m else w.sink.meta j in
    let own : (slot == slot) ≡ true = ground arith in
    let put : meta slot ≡ m = rw own refl in
    record {
      flights = λ s.
          elim (s == slot)
              as (λ t.
                (s == slot) ≡ t
                → count s (w.sink.ready ++ slot ∷ []) + count s w.reading
                  ≡ (if is_idle (if t then in_flight else w.sink.state s) then 0 else 1)) [
                    | true ↦ λ k.
                        let same : s ≡ slot = ground (arith, k) in
                        ground (
                          arith,
                          k,
                          count-append s w.sink.ready (slot ∷ []),
                          h.flights s,
                          free,
                          same,
                        )
                    | false ↦
                        λ k. ground (arith, k, count-append s w.sink.ready (slot ∷ []), h.flights s)
                  ]
            refl;
      order =
          ap (λ fs. fs ++ (slot, m) ∷ []) h.order
          ∙ (append_assoc w.handed (frames_in w.sink.meta w.sink.ready) ((slot, m) ∷ [])
              ∙ ap (λ fs. w.handed ++ fs)
                  (ap (λ fs. fs ++ (slot, m) ∷ [])
                      (sym (frames_in-same w.sink.meta slot m w.sink.ready none_waits))
                    ∙ (ap (λ n. frames_in meta w.sink.ready ++ (slot, n) ∷ []) (sym put)
                        ∙ sym (frames_in-append meta w.sink.ready slot))));
    }
