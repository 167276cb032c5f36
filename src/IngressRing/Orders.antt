-- ===== src/IngressRing/Orders.antt =====
-- Every step of InFlight keeps its books, so that every run does.
use perception_pipeline.Prelude.{
  Bool, List, [], ap, append_assoc, arith, count, count-append, false, get_or, if◌then◌else◌, leb,
  length-set, ltb, map, not, refl, set, sym, true, ℕ, ◌++◌, ◌+◌, ◌<◌, ◌==◌, ◌∙◌, ◌∷◌, ◌≡◌,
}
use perception_pipeline.IngressRing.{
  not_external, bad_slot, too_large, in_flight, FillMode, staged, external, SlotState, idle,
  committed_slot, count_slots, failed, done, put_ready, commit_external, staged_at, no_frame,
  take_front, take_ready, is_idle,
}
use perception_pipeline.IngressRing.InFlight.{
  World, after_commit, after_pop, is_committed, Orderly, map-append_one, frames-put_ready,
  states-set, idle-uncommitted,
}

pub put_ready-Orderly :
    (w : World) (slot t b : ℕ)
    → Orderly w
    → slot < count_slots w.ring
    → is_idle (get_or w.ring.state slot idle) ≡ true
    → Orderly (after_commit w slot (done (put_ready w.ring slot t b)))
put_ready-Orderly w slot t b k l free =
    let none' = idle-uncommitted (get_or w.ring.state slot idle) free in
    let absent : count slot w.ring.ready ≡ 0 = ground (arith, k.once slot) in
    record {
      states = length-set {A = SlotState} w.ring.state slot committed_slot ∙ k.states;
      stamps = length-set {A = ℕ} w.ring.timestamp_ns slot t ∙ k.stamps;
      sizes = length-set {A = ℕ} w.ring.bytes slot b ∙ k.sizes;
      once = λ s. tally s none' (slot == s) refl;
      in_order =
          ap (λ fs. w.went ++ fs)
            (map-append_one (staged_at (put_ready w.ring slot t b)) w.ring.ready slot)
          ∙ (sym (append_assoc w.went _ _)
              ∙ ap (λ fs. fs ++ staged_at (put_ready w.ring slot t b) slot ∷ [])
                  (ap (λ fs. w.went ++ fs) (frames-put_ready w.ring slot t b w.ring.ready absent)
                    ∙ k.in_order));
    }
  where
    tally :
        (s : ℕ)
        → is_committed (get_or w.ring.state slot idle) ≡ false
        → (c : Bool) → (slot == s) ≡ c
        → count s (w.ring.ready ++ slot ∷ []) + count s w.held
          ≡ (if is_committed (get_or (set w.ring.state slot committed_slot) s idle) then 1 else 0)
    tally s none' true e =
        let same : slot ≡ s = ground arith in
        let there = ap (λ n. is_committed (get_or w.ring.state n idle)) same in
        ground (
          arith,
          k.once s,
          count-append s w.ring.ready (slot ∷ []),
          states-set w.ring.state slot s committed_slot (omega (arith, k.states)),
        )
    tally s none' false e = ground (
      arith,
      k.once s,
      count-append s w.ring.ready (slot ∷ []),
      states-set w.ring.state slot s committed_slot (omega (arith, k.states)),
    )

pub commits-Orderly :
    (w : World) (slot t b : ℕ)
    → Orderly w
    → Orderly (after_commit w slot (commit_external w.ring slot t b))
unfolding commit_external
commits-Orderly w slot t b k = by_fill w.ring.fill
  where
    by_fill :
        (f : FillMode)
        → Orderly (
            after_commit w slot (elim f [
              | staged ↦ failed not_external
              | external ↦
                  if leb (count_slots w.ring) slot
                  then failed bad_slot
                  else if ltb w.ring.slot_bytes b
                  then failed too_large
                  else if not (is_idle (get_or w.ring.state slot idle))
                  then failed in_flight
                  else done (put_ready w.ring slot t b)
            ]))
    by_fill staged = k
    by_fill external =
        by_tests (leb (count_slots w.ring) slot) refl (ltb w.ring.slot_bytes b)
          (is_idle (get_or w.ring.state slot idle)) refl
      where
        by_tests :
            (x : Bool)
            → leb (count_slots w.ring) slot ≡ x
            → (y : Bool) → (z : Bool) → is_idle (get_or w.ring.state slot idle) ≡ z
            → Orderly (
                after_commit w slot (
                  if x
                  then failed bad_slot
                  else if y
                  then failed too_large
                  else if not z
                  then failed in_flight
                  else done (put_ready w.ring slot t b)))
        by_tests true e y z f = k
        by_tests false e true z f = k
        by_tests false e false false f = k
        by_tests false e false true f = put_ready-Orderly w slot t b k (ground arith) f

pub front-Orderly :
    (w : World) (q : List ℕ)
    → w.ring.ready ≡ q
    → Orderly w
    → Orderly (after_pop w (take_front w.ring q))
front-Orderly w [] e k = k
front-Orderly w (slot ∷ slots) e k = record {
  states = k.states;
  stamps = k.stamps;
  sizes = k.sizes;
  once = λ s. ground (arith, k.once s, ap (count s) e, count-append s w.held (slot ∷ []));
  in_order =
      append_assoc w.went (staged_at w.ring slot ∷ []) (map (staged_at w.ring) slots)
      ∙ (ap (λ xs. w.went ++ map (staged_at w.ring) xs) (sym e) ∙ k.in_order);
}

pub pops-Orderly : (w : World) → Orderly w → Orderly (after_pop w (take_ready w.ring))
unfolding take_ready
pops-Orderly w k = by_running w.ring.running
  where
    by_running :
        (b : Bool)
        → Orderly (after_pop w (if not b then no_frame else take_front w.ring w.ring.ready))
    by_running false = k
    by_running true = front-Orderly w w.ring.ready refl k
