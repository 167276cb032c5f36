-- ===== src/HeapFrameSink/Tidy.antt =====
-- The slots and the frames under one event, and under a run of them.
use perception_pipeline.Ros.Replay.Slots.{FrameMeta}
use perception_pipeline.HeapFrameSink.{
  made, page_size, round_up, idle, pop_first, create, stop, release, pop, filled, Sink, commit,
  Popped, is_idle,
}
use perception_pipeline.Prelude.{
  some-injective, subst, count-erase_one, ◌≤◌, ltb, ◌||◌, length, leb, not, List, [], ap,
  append_assoc, arith, count, erase_one, false, if◌then◌else◌, none, refl, some, sym, true, ℕ, ◌++◌,
  ◌+◌, ◌==◌, ◌∙◌, ◌∷◌, ◌≡◌,
}
use perception_pipeline.HeapFrameSink.Runs.{
  World, Event, after_commit, after_pop, after_release, step, run, frames_in, Tidy, filled-Tidy,
  commits, releases, pops, stops,
}

commits-Tidy :
    (w : World) (slot : ℕ) (m : FrameMeta)
    → Tidy w
    → Tidy (after_commit w slot m (commit w.sink slot m))
unfolding commit
commits-Tidy w slot m h =
    elim (leb (length w.sink.buffers) slot
          || (ltb w.sink.slot_bytes m.bytes || not (is_idle (w.sink.state slot))))
        as (λ t.
          (leb (length w.sink.buffers) slot
              || (ltb w.sink.slot_bytes m.bytes || not (is_idle (w.sink.state slot))))
            ≡ t
          → Tidy (after_commit w slot m (if t then none else some (filled w.sink slot m)))) [
            | true ↦ λ e. h
            | false ↦ λ e. filled-Tidy w slot m (ground (arith, e)) h
          ]
      refl

pop_first-Tidy :
    (w : World) (ready : List ℕ)
    → w.sink.ready ≡ ready
    → Tidy w
    → Tidy (after_pop w (pop_first w.sink ready) (pop_first w.sink ready).frame)
pop_first-Tidy w [] e h = h
pop_first-Tidy w (slot ∷ ready) e h = record {
  flights = λ s. ground (arith, h.flights s, ap (count s) e);
  order =
      h.order
      ∙ (ap (λ ss. w.handed ++ frames_in w.sink.meta ss) e
          ∙ sym (
              append_assoc w.handed ((slot, w.sink.meta slot) ∷ []) (frames_in w.sink.meta ready)));
}

pops-Tidy : (w : World) → Tidy w → Tidy (after_pop w (pop w.sink) (pop w.sink).frame)
unfolding pop
pops-Tidy w h =
    elim (w.sink.running)
      as (λ t. Tidy (
        after_pop w
          (if◌then◌else◌ {A = Popped} (not t) (record { sink = w.sink; frame = none })
            (pop_first w.sink w.sink.ready))
          (if◌then◌else◌ {A = Popped} (not t) (record { sink = w.sink; frame = none })
            (pop_first w.sink w.sink.ready)).frame)) [
              | true ↦ pop_first-Tidy w w.sink.ready refl h
              | false ↦ h
            ]

releases-Tidy :
    (w : World) (slot : ℕ)
    → Tidy w
    → Tidy (if count slot w.reading == 0 then w else after_release w slot (release w.sink slot))
unfolding release
releases-Tidy w slot h =
    elim (count slot w.reading == 0)
        as (λ t.
          (count slot w.reading == 0) ≡ t
          → Tidy (if t then w else after_release w slot (release w.sink slot))) [
            | true ↦ λ e. h
            | false ↦ λ e.
                elim (leb (length w.sink.buffers) slot)
                  as (λ t. Tidy (
                    after_release w slot (
                      if t
                      then none
                      else some (record w.sink {
                        state = λ j. if j == slot then idle else w.sink.state j;
                      })))) [
                        | true ↦ h
                        | false ↦
                            let held : 1 ≤ count slot w.reading = ground (arith, e) in
                            record {
                              flights = λ s.
                                  elim (s == slot)
                                      as (λ t.
                                        (s == slot) ≡ t
                                        → count s w.sink.ready + count s (erase_one slot w.reading)
                                          ≡ (if is_idle (if t then idle else w.sink.state s)
                                              then 0
                                              else 1)) [
                                                | true ↦ λ k.
                                                    let same : s ≡ slot = ground (arith, k) in
                                                    let here : count s w.sink.ready
                                                          + count s w.reading
                                                        ≡ count slot w.sink.ready
                                                          + count slot w.reading =
                                                      ap
                                                        (λ i.
                                                          count i w.sink.ready + count i w.reading)
                                                        same in
                                                    let less =
                                                      count-erase_one slot s w.reading held in
                                                    let most : count slot w.sink.ready
                                                          + count slot w.reading
                                                        ≤ 1 =
                                                      ground (arith, h.flights slot) in
                                                    ground (
                                                      arith,
                                                      k,
                                                      same,
                                                      here,
                                                      less,
                                                      most,
                                                      held,
                                                      ap (λ i. count i w.reading) same,
                                                    )
                                                | false ↦ λ k. ground (
                                                  arith,
                                                  k,
                                                  h.flights s,
                                                  count-erase_one slot s w.reading held,
                                                )
                                              ]
                                    refl;
                              order = h.order;
                            }
                      ]
          ]
      refl

step-Tidy : (e : Event) (w : World) → Tidy w → Tidy (step e w)
unfolding step stop
step-Tidy (commits slot m) w h = commits-Tidy w slot m h
step-Tidy pops w h = pops-Tidy w h
step-Tidy (releases slot) w h = releases-Tidy w slot h
step-Tidy stops w h = record { flights = h.flights; order = h.order }

steps-Tidy : (es : List Event) (w : World) → Tidy w → Tidy (run es w)
steps-Tidy [] w h = h
steps-Tidy (e ∷ es) w h = steps-Tidy es (step e w) (step-Tidy e w h)

abbrev pub opened : Sink → World
opened s = record { sink = s; reading = []; committed = []; handed = [] }

-- In every run of commits, pops, releases of what is read and stops of a new sink that the constructor made:
-- a slot is in flight exactly while it waits to be popped or is read, and then in one place and
-- once; and the frames come out with the slots and the metadata of their commits, in order, those that
-- wait behind those that were handed out.
pub run-Tidy :
    (buffers : List ℕ) (slot_bytes : ℕ) {s : Sink} (es : List Event)
    → create buffers slot_bytes ≡ some s
    → Tidy (run es (opened s))
unfolding create
run-Tidy buffers slot_bytes {s} es e =
    (elim (length buffers == 0 || slot_bytes == 0)
        as (λ t.
          (if t then none else some (made buffers (round_up slot_bytes page_size))) ≡ some s
          → Tidy (run es (opened s))) [
            | true ↦ λ k. absurd (ground (arith, k))
            | false ↦ λ k.
                subst (λ t. Tidy (run es (opened t))) (some-injective k)
                  (steps-Tidy es (opened (made buffers (round_up slot_bytes page_size)))
                    (record { flights = λ i. refl; order = refl }))
          ])
      e
