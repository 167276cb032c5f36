-- ===== src/DeviceRing/Closest.antt =====
-- get_view_by_timestamp of pipeline/src/device_ring_buffer.cpp, against a description of the slots
-- that can be read, which does not use the code's tests.
use perception_pipeline.Prelude.{
  Option, arith, get_or, no_timestamp, none, some, subst, true, ℕ, ◌%◌, ◌+◌, ◌-◌, ◌<◌, ◌^◌, ◌≡◌,
  ◌≢◌, ◌≤◌,
}
use perception_pipeline.DeviceRing.{Ring, slot_count}
use perception_pipeline.DeviceRing.Searching.{
  Finds, found_at, not_found, none_yet, search_from-Finds,
}
use perception_pipeline.DeviceRing.Reads.{FramePeek, distance, is_candidate, get_view_by_timestamp}

-- A slot that holds a frame near `t`: written, not being written, not abandoned, and within the tolerance
-- on either side.
pub record IsReadable (r : Ring) (t tol slot : ℕ) : Type 0 where
  pub written : get_or r.seq slot 0 ≢ 0
  pub settled : get_or r.seq slot 0 % 2 ≡ 0
  pub kept : get_or r.timestamp_ns slot 0 ≢ no_timestamp
  pub not_late : get_or r.timestamp_ns slot 0 ≤ t + tol
  pub not_early : t ≤ get_or r.timestamp_ns slot 0 + tol

-- How far apart two timestamps are; one of the differences is 0.
abbrev pub gap : ℕ → ℕ → ℕ
gap a b = a - b + (b - a)

-- What the answer is, of the slots below `to`.
pub data Answers (r : Ring) (t tol to : ℕ) : Option FramePeek → Type 0 where
  found :
      (slot : ℕ)
      → slot < to
      → IsReadable r t tol slot
      → ((j : ℕ)
          → j < to
          → IsReadable r t tol j
          → gap t (get_or r.timestamp_ns slot 0) ≤ gap t (get_or r.timestamp_ns j 0))
      → Answers r t tol to (
          some record {
            timestamp_ns = get_or r.timestamp_ns slot 0;
            slot = slot;
            slot_seq = get_or r.seq slot 0;
          })
  nowhere : ((j : ℕ) → j < to → ¬ IsReadable r t tol j) → Answers r t tol to none

distance-gap : (a b : ℕ) → distance a b ≡ gap a b
distance-gap a b = ground arith

module _ (r : Ring) (t tol slot : ℕ) where
  is_candidate-IsReadable : is_candidate r t tol slot ≡ true → IsReadable r t tol slot
  is_candidate-IsReadable c = record {
    written = λ e. ground arith;
    settled = ground arith;
    kept = λ e. ground arith;
    not_late = ground arith;
    not_early = ground arith;
  }

  IsReadable-is_candidate : IsReadable r t tol slot → is_candidate r t tol slot ≡ true
  IsReadable-is_candidate k = ground (arith, k.written, k.settled, k.kept, k.not_late, k.not_early)

Finds-Answers :
    (r : Ring) (t tol to : ℕ) (o : Option FramePeek) → Finds r t tol 0 to o → Answers r t tol to o
Finds-Answers r t tol to o (found_at slot _ l c m) =
    found slot l (is_candidate-IsReadable r t tol slot c) (λ j lj kj.
      let here = distance-gap t (get_or r.timestamp_ns slot 0) in
      let there = distance-gap t (get_or r.timestamp_ns j 0) in
      omega (arith, here, there, m j (omega arith) lj (IsReadable-is_candidate r t tol j kj)))
Finds-Answers r t tol to o (not_found h) = nowhere (λ j lj kj.
    let yes = IsReadable-is_candidate r t tol j kj in let no = h j (omega arith) lj in ground arith)

-- With a tolerance below 2 ^ 64 - 1 and closest_match, get_view_by_timestamp answers
-- a slot whose seq is neither 0 nor odd, whose timestamp is not that of an abandoned write and within the
-- tolerance, with that seq and timestamp, and none of the ring's such slots is closer; it answers
-- nothing only if there is no such slot.
pub get_view_by_timestamp-Answers :
    (r : Ring) (t tol : ℕ)
    → tol < 2 ^ 64 - 1
    → Answers r t tol (slot_count r) (get_view_by_timestamp r t tol true)
unfolding get_view_by_timestamp
get_view_by_timestamp-Answers r t tol h =
    Finds-Answers r t tol (slot_count r) (get_view_by_timestamp r t tol true) (
      subst (λ n. Finds r t tol 0 n (get_view_by_timestamp r t tol true)) zero_more
        (search_from-Finds r t tol (λ j c. ground arith) 0 (slot_count r) (2 ^ 64 - 1) none
          (none_yet (λ j l. elim l [ ]))))
  where
    zero_more : 0 + slot_count r ≡ slot_count r
    zero_more = omega arith
