-- ===== src/IngressRing/Refills.antt =====
-- No slot of an external ring of pipeline/src/host_ingress_ring.cpp is filled twice before slot_consumed reports
-- it consumed.
use perception_pipeline.Prelude.{
  Bool, List, [], ap, arith, count, count-erase_one, erase_one, false, get_or, if◌then◌else◌, inc64,
  leb, length, ltb, not, refl, set, suc, sym, true, zero, ℕ, ◌<◌, ◌==◌, ◌∙◌, ◌∷◌, ◌≡◌, ◌≤◌,
}
use perception_pipeline.IngressRing.{
  not_external, bad_slot, too_large, in_flight, FillMode, staged, external, SlotState, idle,
  committed_slot, releasing, count_slots, failed, done, put_ready, commit_external, take_ready,
  release, no_such_slot, answer, slot_consumed, is_idle, is_releasing, stop, no_frame, take_front,
}
use perception_pipeline.IngressRing.InFlight.{
  World, Event, commits, pops, releases, asks, stops, after_commit, after_pop, after_release,
  after_ask, step, is_committed, Orderly, IsGuarded,
}

idles-set :
    (xs : List SlotState) (i j : ℕ) (v : SlotState)
    → i < length xs
    → is_idle (get_or (set xs i v) j idle)
      ≡ (if i == j then is_idle v else is_idle (get_or xs j idle))
idles-set [] i j v h = elim h [ ]
idles-set (x ∷ xs) zero zero v h = refl
idles-set (x ∷ xs) zero (suc j) v h = ground arith
idles-set (x ∷ xs) (suc i) zero v h = ground arith
idles-set (x ∷ xs) (suc i) (suc j) v h = ground (arith, idles-set xs i j v)

committed-busy : (s : SlotState) → is_committed s ≡ true → is_idle s ≡ false
committed-busy idle e = sym e
committed-busy committed_slot e = refl
committed-busy releasing e = refl

count-erase_one_absent :
    (slot s : ℕ) (xs : List ℕ) → count slot xs ≡ 0 → count s (erase_one slot xs) ≡ count s xs
count-erase_one_absent slot s [] h = refl
count-erase_one_absent slot s (x ∷ xs) h = ground (arith, count-erase_one_absent slot s xs)

-- The slot's state and its entries change together, and nothing else does.
change :
    (states : List SlotState) (pending pending' : List ℕ) (slot s : ℕ) (v : SlotState)
    → slot < length states
    → ((s : ℕ) → count s pending ≡ (if is_idle (get_or states s idle) then 0 else 1))
    → count slot pending' ≡ (if is_idle v then 0 else 1)
    → ((s : ℕ) → (slot == s) ≡ false → count s pending' ≡ count s pending)
    → count s pending' ≡ (if is_idle (get_or (set states slot v) s idle) then 0 else 1)
change states pending pending' slot s v l k here there = by_slot (slot == s) refl
  where
    by_slot :
        (c : Bool)
        → (slot == s) ≡ c
        → count s pending' ≡ (if is_idle (get_or (set states slot v) s idle) then 0 else 1)
    by_slot true e =
        let same : slot ≡ s = ground arith in
        let moved = ap (λ n. count n pending') same in
        ground (arith, here, idles-set states slot s v l)
    by_slot false e = ground (arith, there s e, k s, idles-set states slot s v l)

module _ (w : World) (slot : ℕ) (o : Orderly w) (k : IsGuarded w) where
  commits-IsGuarded : (t b : ℕ) → IsGuarded (after_commit w slot (commit_external w.ring slot t b))
  unfolding commit_external
  commits-IsGuarded t b = by_fill w.ring.fill
    where
      filled :
          slot < count_slots w.ring
          → is_idle (get_or w.ring.state slot idle) ≡ true
          → IsGuarded (after_commit w slot (done (put_ready w.ring slot t b)))
      filled l free = record {
        filled_once = λ s.
            change w.ring.state w.pending (slot ∷ w.pending) slot s committed_slot
              (omega (arith, o.states)) k.filled_once (ground (arith, k.filled_once slot))
              (λ s e. ground arith);
      }

      by_fill :
          (f : FillMode)
          → IsGuarded (
              after_commit w slot (elim f [
                | staged ↦ failed not_external
                | external ↦
                    if leb (count_slots w.ring) slot
                    then failed bad_slot
                    else if ltb w.ring.slot_bytes b
                    then failed too_large
                    else if not (is_idle (get_or w.ring.state slot idle))
                    then failed in_flight
                    else done (put_ready w.ring slot t b)
              ]))
      by_fill staged = k
      by_fill external =
          by_tests (leb (count_slots w.ring) slot) refl (ltb w.ring.slot_bytes b)
            (is_idle (get_or w.ring.state slot idle)) refl
        where
          by_tests :
              (x : Bool)
              → leb (count_slots w.ring) slot ≡ x
              → (y : Bool) → (z : Bool) → is_idle (get_or w.ring.state slot idle) ≡ z
              → IsGuarded (
                  after_commit w slot (
                    if x
                    then failed bad_slot
                    else if y
                    then failed too_large
                    else if not z
                    then failed in_flight
                    else done (put_ready w.ring slot t b)))
          by_tests true e y z f = k
          by_tests false e true z f = k
          by_tests false e false false f = k
          by_tests false e false true f = filled (ground arith) f

  releases-IsGuarded :
      1 ≤ count slot w.held → IsGuarded (after_release w slot (release w.ring slot))
  unfolding release
  releases-IsGuarded h =
      elim (leb (count_slots w.ring) slot)
          as (λ b.
            leb (count_slots w.ring) slot ≡ b
            → IsGuarded (
                after_release w slot (
                  if b
                  then failed bad_slot
                  else done (record w.ring {
                    state = set w.ring.state slot releasing;
                    released = inc64 w.ring.released;
                  })))) [
                    | true ↦ λ _. k
                    | false ↦ λ e. record {
                      filled_once = λ s.
                          change w.ring.state w.pending w.pending slot s releasing
                            (ground (arith, o.states)) k.filled_once
                            (ground (arith, k.filled_once slot, busy)) (λ s e. refl);
                    }
                  ]
        refl
    where
      busy : is_idle (get_or w.ring.state slot idle) ≡ false
      busy = committed-busy _ (ground (arith, o.once slot))

  asks-IsGuarded :
      (retired : Bool) → IsGuarded (after_ask w slot (slot_consumed w.ring slot retired))
  unfolding slot_consumed
  asks-IsGuarded retired =
      by_tests (leb (count_slots w.ring) slot) refl (is_idle (get_or w.ring.state slot idle)) refl
        (is_releasing (get_or w.ring.state slot idle)) retired
    where
      by_tests :
          (x : Bool)
          → leb (count_slots w.ring) slot ≡ x
          → (y : Bool) → is_idle (get_or w.ring.state slot idle) ≡ y
          → (z : Bool) → (retired' : Bool)
          → IsGuarded (
              after_ask w slot (
                if x
                then no_such_slot
                else if y
                then answer true w.ring
                else if not z
                then answer false w.ring
                else if not retired'
                then answer false w.ring
                else answer true (record w.ring { state = set w.ring.state slot idle })))
      by_tests true e y f z r = k
      by_tests false e true f z r = record {
        filled_once = λ s.
            let none' : count slot w.pending ≡ 0 = ground (arith, k.filled_once slot) in
            count-erase_one_absent slot s w.pending none' ∙ k.filled_once s;
      }
      by_tests false e false f false r = record { filled_once = k.filled_once }
      by_tests false e false f true false = record { filled_once = k.filled_once }
      by_tests false e false f true true = record {
        filled_once = λ s.
            change w.ring.state w.pending (erase_one slot w.pending) slot s idle
              (ground (arith, o.states)) k.filled_once
              (ground (arith, k.filled_once slot, count-erase_one slot slot w.pending))
              (λ s e. ground (arith, k.filled_once slot, count-erase_one slot s w.pending));
      }

  pops-IsGuarded : IsGuarded (after_pop w (take_ready w.ring))
  unfolding take_ready
  pops-IsGuarded = by_front w.ring.running w.ring.ready
    where
      by_front :
          (b : Bool) (q : List ℕ)
          → IsGuarded (after_pop w (if not b then no_frame else take_front w.ring q))
      by_front false q = k
      by_front true [] = k
      by_front true (x ∷ xs) = record { filled_once = k.filled_once }

pub step-IsGuarded : (w : World) (e : Event) → Orderly w → IsGuarded w → IsGuarded (step w e)
unfolding step stop
step-IsGuarded w (commits slot t b) o k = commits-IsGuarded w slot o k t b
step-IsGuarded w pops o k = pops-IsGuarded w 0 o k
step-IsGuarded w (releases slot) o k =
    elim (ltb 0 (count slot w.held))
        as (λ b.
          ltb 0 (count slot w.held) ≡ b
          → IsGuarded (if b then after_release w slot (release w.ring slot) else w)) [
            | true ↦ λ h. releases-IsGuarded w slot o k (ground arith)
            | false ↦ λ _. k
          ]
      refl
step-IsGuarded w (asks slot retired) o k = asks-IsGuarded w slot o k retired
step-IsGuarded w stops o k =
    elim w.ring.running
      as (λ b.
        IsGuarded
          (record w { ring = if not b then w.ring else record w.ring { running = false } })) [
            | true ↦ record { filled_once = k.filled_once }
            | false ↦ record { filled_once = k.filled_once }
          ]
