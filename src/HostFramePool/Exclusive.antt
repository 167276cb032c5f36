-- ===== src/HostFramePool/Exclusive.antt =====
-- pipeline/src/host_frame_pool.cpp hands no slot out twice, and drops only when every slot is out.
use perception_pipeline.Prelude.{
  length-range_from, count-range_from, length-erase_one, count-erase_one, Bool-cases, List, [],
  arith, count, if◌then◌else◌, inl, inr, length, length-replicate, length-set, ltb, none, refl,
  some, ℕ, ◌+◌, ◌<◌, ◌==◌, ◌^◌, ◌∷◌, ◌≡◌, ◌⊎◌,
}
use perception_pipeline.HostFramePool.{
  Pool, filled_up, create, pop_from, pop_free, stamp, push_free, count_down, unused,
}
use perception_pipeline.HostFramePool.World.{
  World, Event, pops, stamps, pushes, counts_down, step, run, popped,
}

-- Each slot is in exactly one place: free, being handed out, or behind one live frame.
pub record IsExclusive (n : ℕ) (w : World) : Type 0 where
  pub shape : length w.pool.frames ≡ n
  pub small : n + w.finishing < 2 ^ 32
  pub places :
      (i : ℕ)
      → count i w.pool.free + count i w.starting + count i w.live ≡ (if ltb i n then 1 else 0)
  pub total : length w.pool.free + length w.starting + length w.live ≡ n
  pub used : w.pool.in_use ≡ length w.live + w.finishing

popped-IsExclusive :
    (n : ℕ) (w : World) (free : List ℕ)
    → w.pool.free ≡ free
    → IsExclusive n w
    → IsExclusive n (popped w (pop_from w.pool free))
popped-IsExclusive n w [] e v = record {
  shape = v.shape;
  small = v.small;
  places = v.places;
  total = v.total;
  used = v.used;
}
popped-IsExclusive n w (s ∷ rest) e v = record {
  shape = v.shape;
  small = v.small;
  places = λ i. ground (arith, v.places i);
  total = ground (arith, v.total);
  used = v.used;
}

step-IsExclusive :
    (n : ℕ) (w : World) (e : Event)
    → n + w.finishing + 1 < 2 ^ 32
    → IsExclusive n w
    → IsExclusive n (step w e)
unfolding step pop_free stamp push_free count_down
step-IsExclusive n w pops h v = popped-IsExclusive n w w.pool.free refl v
step-IsExclusive n w (stamps s timestamp_ns) h v = elim (Bool-cases (count s w.starting == 0)) [
  | inl absent ↦ rw absent v
  | inr there ↦ rw there (record {
    shape = omega (
      arith,
      v.shape,
      length-set w.pool.frames s
          (record { timestamp_ns = timestamp_ns; host_ready_ns = 0; sequence = w.pool.sequence }),
    );
    small = v.small;
    places = λ i. ground (arith, v.places i, count-erase_one s i w.starting);
    total = ground (arith, v.total, length-erase_one s w.starting);
    used = ground (arith, v.used, v.total, v.small, length-erase_one s w.starting);
  })
]
step-IsExclusive n w (pushes s) h v = elim (Bool-cases (count s w.live == 0)) [
  | inl absent ↦ rw absent v
  | inr there ↦ rw there (record {
    shape = v.shape;
    small = omega arith;
    places = λ i. ground (arith, v.places i, count-erase_one s i w.live);
    total = ground (arith, v.total, length-erase_one s w.live);
    used = ground (arith, v.used, length-erase_one s w.live);
  })
]
step-IsExclusive n w counts_down h v = elim (Bool-cases (w.finishing == 0)) [
  | inl nobody ↦ rw nobody v
  | inr somebody ↦ rw somebody (record {
    shape = v.shape;
    small = omega (arith, v.small);
    places = v.places;
    total = v.total;
    used = ground (arith, v.used, v.small, v.total);
  })
]

-- The slots and the releases in flight are fewer than 2^32 together.
abbrev pub Fits : ℕ → World → List Event → Type 0
Fits n w [] = Unit {0}
Fits n w (e ∷ es) = (n + w.finishing + 1 < 2 ^ 32) × Fits n (step w e) es

-- In every order of the threads each slot stays in exactly one place, and `in_use` counts the live
-- frames with the releases that have not counted down.
pub run-IsExclusive :
    (n : ℕ) (w : World) (es : List Event) → IsExclusive n w → Fits n w es → IsExclusive n (run w es)
unfolding run
run-IsExclusive n w [] v fits = v
run-IsExclusive n w (e ∷ es) v fits =
    run-IsExclusive n (step w e) es (step-IsExclusive n w e fits.0 v) fits.1

abbrev pub opened : Pool → World
opened p = record { pool = p; starting = []; live = []; finishing = 0 }

create-eq_filled_up :
    (slots frame_bytes : ℕ) {p : Pool}
    → create slots frame_bytes ≡ some p
    → p ≡ filled_up slots frame_bytes
unfolding create
create-eq_filled_up slots frame_bytes e = ground arith

filled_up-IsExclusive :
    (slots frame_bytes : ℕ)
    → slots < 2 ^ 32
    → IsExclusive slots (opened (filled_up slots frame_bytes))
filled_up-IsExclusive slots frame_bytes h = record {
  shape = length-replicate slots unused;
  small = omega arith;
  places = λ i. ground (arith, count-range_from 0 slots i);
  total = omega (arith, length-range_from 0 slots);
  used = refl;
}

-- In the pool of a constructor call that succeeds, with fewer than 2^32 slots, each slot is in one
-- place.
pub create-IsExclusive :
    (slots frame_bytes : ℕ) {p : Pool}
    → slots < 2 ^ 32
    → create slots frame_bytes ≡ some p
    → IsExclusive slots (opened p)
create-IsExclusive slots frame_bytes h e =
    rw (create-eq_filled_up slots frame_bytes e) (filled_up-IsExclusive slots frame_bytes h)

pop_from-cases :
    (n : ℕ) (w : World) (free : List ℕ)
    → w.pool.free ≡ free
    → IsExclusive n w
    → (((pop_from w.pool free).1 ≡ none) × (length w.starting + length w.live ≡ n))
      ⊎ ((s : ℕ) × ((pop_from w.pool free).1 ≡ some s)
          × (s < n)
          × (count s w.starting ≡ 0)
          × (count s w.live ≡ 0)
          × (length w.starting + length w.live < n))
pop_from-cases n w [] e v = inl (refl, ground (arith, v.total))
pop_from-cases n w (s ∷ rest) e v = inr (
  s,
  refl,
  ground (arith, v.places s),
  ground (arith, v.places s),
  ground (arith, v.places s),
  ground (arith, v.total),
)

-- `acquire` drops exactly when every slot is out, and otherwise takes a slot that is in range and
-- behind no live frame.
pub pop_free-cases :
    (n : ℕ) (w : World)
    → IsExclusive n w
    → (((pop_free w.pool).1 ≡ none) × (length w.starting + length w.live ≡ n))
      ⊎ ((s : ℕ) × ((pop_free w.pool).1 ≡ some s)
          × (s < n)
          × (count s w.starting ≡ 0)
          × (count s w.live ≡ 0)
          × (length w.starting + length w.live < n))
unfolding pop_free
pop_free-cases n w v = pop_from-cases n w w.pool.free refl v
