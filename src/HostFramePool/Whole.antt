-- ===== src/HostFramePool/Whole.antt =====
-- `acquire` and `release` of pipeline/src/host_frame_pool.cpp run whole, as their callers see them.
use perception_pipeline.Prelude.{
  List, Option, [], ap, arith, count, count-erase_one, erase_one, get_or, get_or-set_ne,
  get_or-set_self, inc64, length, length-erase_one, length-set, none, refl, some, suc, ℕ, ◌+◌, ◌<◌,
  ◌^◌, ◌∷◌, ◌≡◌, ◌≢◌, ◌≤◌,
}
use perception_pipeline.HostFramePool.{
  stamped_as, pop_from, stamp_popped, Pool, Stamp, unused, pop_free, stamp, acquire, release,
}
use perception_pipeline.HostFramePool.World.{World}
use perception_pipeline.HostFramePool.Exclusive.{IsExclusive}

-- A pool with the slots behind its live frames, and no call in progress.
abbrev pub quiet : Pool → List ℕ → World
quiet p live = record { pool = p; starting = []; live = live; finishing = 0 }

-- The ways in which `acquire` ends: the pool is dry and one more drop is counted, or a slot goes
-- out that was behind no live frame, and no other frame is touched.
pub record Takes (n : ℕ) (p : Pool) (live : List ℕ) (timestamp_ns s : ℕ) (p' : Pool) : Type 0 where
  pub valid : IsExclusive n (quiet p' (s ∷ live))
  pub absent : count s live ≡ 0
  pub stamped : (get_or p'.frames s unused).timestamp_ns ≡ timestamp_ns
  pub others : (i : ℕ) → s ≢ i → get_or p'.frames i unused ≡ get_or p.frames i unused
  pub drops : p'.drops ≡ p.drops
  pub free : length p.free ≡ suc (length p'.free)

pub record Dry (n : ℕ) (p : Pool) (live : List ℕ) (p' : Pool) : Type 0 where
  pub all_out : length live ≡ n
  pub empty : p.free ≡ []
  pub counted : p' ≡ record p { drops = inc64 p.drops }

abbrev pub Acquires : ℕ → Pool → List ℕ → ℕ → Pool × Option ℕ → Type 0
Acquires n p live timestamp_ns (p', none) = Dry n p live p'
Acquires n p live timestamp_ns (p', some s) = Takes n p live timestamp_ns s p'

pop_from-Acquires :
    (n : ℕ) (p : Pool) (live free : List ℕ) (timestamp_ns : ℕ)
    → p.free ≡ free
    → IsExclusive n (quiet p live)
    → n + 1 < 2 ^ 32
    → Acquires n p live timestamp_ns (stamp_popped (pop_from p free) timestamp_ns)
unfolding stamp
pop_from-Acquires n p live [] timestamp_ns e v h = record {
  all_out = ground (arith, v.total);
  empty = e;
  counted = refl;
}
pop_from-Acquires n p live (s ∷ rest) timestamp_ns e v h =
    let in_range : s < n = ground (arith, v.places s) in
    record {
      valid = record {
        shape = omega (arith, v.shape, length-set p.frames s (stamped_as p timestamp_ns));
        small = v.small;
        places = λ i. ground (arith, v.places i);
        total = ground (arith, v.total);
        used = ground (arith, v.used, v.total);
      };
      absent = ground (arith, v.places s);
      stamped =
          ap (λ (f : Stamp). f.timestamp_ns)
            (get_or-set_self p.frames s (stamped_as p timestamp_ns) unused
              (omega (arith, v.shape)));
      others = λ i ne. get_or-set_ne p.frames s i (stamped_as p timestamp_ns) unused ne;
      drops = refl;
      free = ap length e;
    }

-- A call of `acquire`: the pool is dry, and one more drop is counted; or a slot goes out that was
-- behind no live frame, with the caller's time on it, and no other frame is touched.
pub acquire-Acquires :
    (n : ℕ) (p : Pool) (live : List ℕ) (timestamp_ns : ℕ)
    → IsExclusive n (quiet p live)
    → n + 1 < 2 ^ 32
    → Acquires n p live timestamp_ns (acquire p timestamp_ns)
unfolding acquire pop_free
acquire-Acquires n p live timestamp_ns v h = pop_from-Acquires n p live p.free timestamp_ns refl v h

-- A call of `release` takes one live frame's slot back.
pub release-IsExclusive :
    (n : ℕ) (p : Pool) (live : List ℕ) (s : ℕ)
    → IsExclusive n (quiet p live)
    → 1 ≤ count s live
    → IsExclusive n (quiet (release p s) (erase_one s live))
unfolding release
release-IsExclusive n p live s v held = record {
  shape = v.shape;
  small = v.small;
  places = λ i. ground (arith, v.places i, count-erase_one s i live);
  total = ground (arith, v.total, length-erase_one s live);
  used = ground (arith, v.used, v.total, v.small, length-erase_one s live);
}
