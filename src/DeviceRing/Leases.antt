-- ===== src/DeviceRing/Leases.antt =====
-- The promise of a read lease, in every interleaving.
use perception_pipeline.Prelude.{
  List, [], ap, arith, false, get_or, get_or-replicate, if◌then◌else◌, length, length-replicate,
  ltb, refl, replicate, subst, suc, true, zero, ℕ, ◌<◌, ◌^◌, ◌∷◌, ◌≡◌,
}
use perception_pipeline.DeviceRing.{blank_ring, Ring, slot_count, is_odd, WritePolicy}
use perception_pipeline.DeviceRing.Seqlock.{
  resting, Reader, idle, holding, World, Event, chooses, advances, publishes, abandons, finds,
  moves, drops, step, run, opened, on_thread,
}
use perception_pipeline.DeviceRing.Exclusive.{owns, masters, holders, Fine, Safe}
use perception_pipeline.DeviceRing.Producer.{
  chooses-Safe, advances-Safe, publishes-Safe, abandons-Safe,
}
use perception_pipeline.DeviceRing.Consumer.{finds-Safe, moves-Safe, drops-Safe}

on_thread-Safe :
    (w : World) (i : ℕ) (w' : World)
    → Safe w
    → (i < length w.threads → Safe w')
    → Safe (on_thread w i w')
on_thread-Safe w i w' k go =
    elim (ltb i (length w.threads))
        as (λ b. ltb i (length w.threads) ≡ b → Safe (if b then w' else w)) [
          | true ↦ λ l. go (ground arith)
          | false ↦ λ _. k
        ]
      refl

step-Safe : (w : World) (e : Event) → Safe w → Safe (step w e)
unfolding step
step-Safe w (chooses s) k = chooses-Safe w w.writer s refl k
step-Safe w (advances b) k = advances-Safe w w.writer b refl k
step-Safe w (publishes t) k = publishes-Safe w w.writer t refl k
step-Safe w abandons k = abandons-Safe w w.writer refl k
step-Safe w (finds i s q) k =
    on_thread-Safe w i _ k (λ h. finds-Safe w i k h (get_or w.threads i idle) s q refl)
step-Safe w (moves i) k =
    on_thread-Safe w i _ k (λ h. moves-Safe w i k h (get_or w.threads i idle) refl)
step-Safe w (drops i) k =
    on_thread-Safe w i _ k (λ h. drops-Safe w i k h (get_or w.threads i idle) refl)

run-keeps : (w : World) (es : List Event) → Safe w → Safe (run w es)
unfolding run
run-keeps w [] k = k
run-keeps w (e ∷ es) k = run-keeps (step w e) es (step-Safe w e k)

holders-replicate : (s n : ℕ) → holders s (replicate n idle) ≡ 0
holders-replicate s zero = refl
holders-replicate s (suc n) = omega (arith, holders-replicate s n)

idle-replicate : (r : Ring) (n i : ℕ) → Fine r resting (get_or (replicate n idle) i idle)
idle-replicate r zero i = refl
idle-replicate r (suc n) zero = refl
idle-replicate r (suc n) (suc i) = idle-replicate r n i

pub opened-Safe :
    (slots max_consumers k : ℕ) (policy : WritePolicy)
    → k < 2 ^ 32
    → Safe (opened (blank_ring slots policy max_consumers) k)
opened-Safe slots c k policy h = record {
  few = omega (arith, h, length-replicate {A = Reader} k idle);
  readers_length = refl;
  timestamps_length = refl;
  range = refl;
  tally = λ s _. omega (arith, get_or-replicate slots s, holders-replicate s k);
  parity = λ s _. ap is_odd (get_or-replicate slots s);
  fine = λ i. idle-replicate (blank_ring slots policy c) k i;
}

-- With fewer than 2 ^ 32 consumers on a new ring, after any interleaving of the producer's and the consumers'
-- accesses: while a consumer holds a read lease on a slot, the slot still bears the timestamp
-- that the lease was given with, and the producer has no write lease on that slot.
pub run-leases_hold :
    (slots max_consumers k : ℕ) (policy : WritePolicy) (es : List Event) (i s t : ℕ)
    → k < 2 ^ 32
    → get_or (run (opened (blank_ring slots policy max_consumers) k) es).threads i idle
      ≡ holding s t
    → (get_or (run (opened (blank_ring slots policy max_consumers) k) es).ring.timestamp_ns s 0 ≡ t)
      × (masters (run (opened (blank_ring slots policy max_consumers) k) es).writer s ≡ false)
run-leases_hold slots c k policy es i s t h e =
    let w = run (opened (blank_ring slots policy c) k) es in
    let safe =
      run-keeps (opened (blank_ring slots policy c) k) es (opened-Safe slots c k policy h) in
    subst (λ x. Fine w.ring w.writer x) e (safe.fine i)

-- With fewer than 2 ^ 32 consumers on a new ring, after any interleaving: each slot's reader count is the
-- number of consumers that have counted in and not out, and its seq is odd exactly
-- while the producer has fenced it off.
pub run-counts_readers :
    (slots max_consumers k : ℕ) (policy : WritePolicy) (es : List Event) (s : ℕ)
    → k < 2 ^ 32
    → s < slot_count (run (opened (blank_ring slots policy max_consumers) k) es).ring
    → (get_or (run (opened (blank_ring slots policy max_consumers) k) es).ring.readers s 0
        ≡ holders s (run (opened (blank_ring slots policy max_consumers) k) es).threads)
      × (is_odd (get_or (run (opened (blank_ring slots policy max_consumers) k) es).ring.seq s 0)
          ≡ owns (run (opened (blank_ring slots policy max_consumers) k) es).writer s)
run-counts_readers slots c k policy es s h l =
    let safe =
      run-keeps (opened (blank_ring slots policy c) k) es (opened-Safe slots c k policy h) in
    (safe.tally s l, safe.parity s l)
