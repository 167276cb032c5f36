-- ===== src/DeviceRing/TwoSearches.antt =====
-- The two loops of pipeline/src/device_ring_buffer.cpp that search by timestamp: lease_by_timestamp's
-- and get_view_by_timestamp's.
use perception_pipeline.Prelude.{
  Bool, Option, arith, false, get_or, leb, ltb, no_slot, none, refl, some, subst, suc, true, zero,
  ℕ, ◌+◌, ◌<◌, ◌==◌, ◌≡◌, ◌≤◌,
}
use perception_pipeline.DeviceRing.{Ring, slot_count, count_in}
use perception_pipeline.DeviceRing.Reads.{
  confirm, Leased, leased, timestamp_attempts, lease_by_timestamp, FramePeek, distance,
  is_candidate, peek_at, search_from, get_view_by_timestamp, BestSlot, best_from, no_best,
  after_search,
}

-- The same answer of the two loops.
data Same (r : Ring) : BestSlot → Option FramePeek → Type 0 where
  neither : (d q : ℕ) → Same r (record { diff = d; slot = no_slot; seq = q }) none
  both :
      (d slot : ℕ)
      → slot < no_slot
      → Same r (record { diff = d; slot = slot; seq = get_or r.seq slot 0 }) (some (peek_at r slot))

-- The locals with `slot` as the best.
abbrev nearest : Ring → ℕ → ℕ → BestSlot
nearest r t slot = record {
  diff = distance t (get_or r.timestamp_ns slot 0);
  slot = slot;
  seq = get_or r.seq slot 0;
}

module _ (r : Ring) (t tol : ℕ) (closest : Bool) (slot n : ℕ) (b : BestSlot) where
  best_from-skip :
      is_candidate r t tol slot ≡ false
      → best_from r t tol closest slot (suc n) b ≡ best_from r t tol closest (slot + 1) n b
  unfolding best_from
  best_from-skip c = ground arith

  best_from-first :
      is_candidate r t tol slot ≡ true
      → closest ≡ false
      → best_from r t tol closest slot (suc n) b
        ≡ record b { slot = slot; seq = get_or r.seq slot 0 }
  unfolding best_from
  best_from-first c first = ground arith

  best_from-closer :
      is_candidate r t tol slot ≡ true
      → closest ≡ true
      → ltb (distance t (get_or r.timestamp_ns slot 0)) b.diff ≡ true
      → best_from r t tol closest slot (suc n) b
        ≡ best_from r t tol closest (slot + 1) n (nearest r t slot)
  unfolding best_from
  best_from-closer c first l = ground arith

  best_from-farther :
      is_candidate r t tol slot ≡ true
      → closest ≡ true
      → ltb (distance t (get_or r.timestamp_ns slot 0)) b.diff ≡ false
      → best_from r t tol closest slot (suc n) b ≡ best_from r t tol closest (slot + 1) n b
  unfolding best_from
  best_from-farther c first l = ground arith

module _ (r : Ring) (t tol : ℕ) where
  best_from-Same :
      (closest : Bool) (slot n : ℕ) (b : BestSlot) (o : Option FramePeek)
      → slot + n ≤ no_slot
      → Same r b o
      → Same r (best_from r t tol closest slot n b) (search_from r t tol closest slot n b.diff o)
  unfolding best_from search_from
  best_from-Same closest slot zero b o h k = k
  best_from-Same closest slot (suc n) b o h k =
      by_tests (best_from-Same closest (slot + 1) n b o (omega arith) k)
        (best_from-Same closest (slot + 1) n (nearest r t slot) (some (peek_at r slot))
          (omega arith) (both _ slot (omega arith)))
        (is_candidate r t tol slot) refl closest refl
        (ltb (distance t (get_or r.timestamp_ns slot 0)) b.diff) refl
    where
      by_tests :
          Same r
            (best_from r t tol closest (slot + 1) n b)
            (search_from r t tol closest (slot + 1) n b.diff o)
          → Same r (best_from r t tol closest (slot + 1) n (nearest r t slot)) (
              search_from r t tol closest
                (slot + 1)
                n
                (distance t (get_or r.timestamp_ns slot 0))
                (some (peek_at r slot)))
          → (c : Bool) → is_candidate r t tol slot ≡ c
          → (m : Bool) → closest ≡ m
          → (l : Bool) → ltb (distance t (get_or r.timestamp_ns slot 0)) b.diff ≡ l
          → Same r (best_from r t tol closest slot (suc n) b) (elim c [
            | false ↦ search_from r t tol closest (slot + 1) n b.diff o
            | true ↦ elim m [
              | false ↦ some (peek_at r slot)
              | true ↦ elim l [
                | true ↦
                    search_from r t tol true
                      (slot + 1)
                      n
                      (distance t (get_or r.timestamp_ns slot 0))
                      (some (peek_at r slot))
                | false ↦ search_from r t tol true (slot + 1) n b.diff o
              ]
            ]
          ])
      by_tests skip nearer false e m em l el = rw (best_from-skip r t tol closest slot n b e) skip
      by_tests skip nearer true e false em l el =
          rw (best_from-first r t tol closest slot n b e em) (both _ slot (omega arith))
      by_tests skip nearer true e true em true el =
          rw (best_from-closer r t tol closest slot n b e em el) (
            subst
              (λ m. Same r (best_from r t tol closest (slot + 1) n (nearest r t slot)) (
                search_from r t tol m (slot + 1) n (distance t (get_or r.timestamp_ns slot 0))
                  (some (peek_at r slot))))
              em nearer)
      by_tests skip nearer true e true em false el =
          rw (best_from-farther r t tol closest slot n b e em el) (
            subst
              (λ m.
                Same r (best_from r t tol closest (slot + 1) n b)
                  (search_from r t tol m (slot + 1) n b.diff o))
              em skip)

best_from-agrees :
    (r : Ring) (t tol : ℕ) (closest : Bool)
    → slot_count r ≤ no_slot
    → Same r
        (best_from r t tol closest 0 (slot_count r) no_best)
        (get_view_by_timestamp r t tol closest)
unfolding get_view_by_timestamp
best_from-agrees r t tol closest h =
    best_from-Same r t tol closest 0 (slot_count r) no_best none (omega arith) (neither _ _)

-- The lease of a frame that was found, and the ring with its hold.
abbrev pub taken : Ring → ℕ → Option FramePeek → Leased
taken r consumer_id none = leased none r
taken r consumer_id (some p) =
    leased
      (some record {
        slot = p.slot;
        seq = p.slot_seq;
        consumer_id = consumer_id;
        timestamp_ns = p.timestamp_ns;
      })
      (count_in r p.slot)

pub ==-self : (x : ℕ) → (x == x) ≡ true
==-self x = ground arith

confirm_self :
    (r : Ring) (slot consumer_id : ℕ)
    → confirm r slot (get_or r.seq slot 0) consumer_id
      ≡ some record {
        slot = slot;
        seq = get_or r.seq slot 0;
        consumer_id = consumer_id;
        timestamp_ns = get_or r.timestamp_ns slot 0;
      }
unfolding confirm
confirm_self r slot c = rw (==-self (get_or r.seq slot 0)) refl

-- With a consumer in range and at most 2 ^ 32 - 1 slots, with closest_match or without it, lease_by_timestamp
-- without interference leases at its first attempt the frame that get_view_by_timestamp answers, with its
-- seq and timestamp and one more reader, and no frame if that answers none: the two loops agree.
pub lease_by_timestamp-takes :
    (r : Ring) (t tol consumer_id attempts : ℕ) (closest : Bool)
    → slot_count r ≤ no_slot
    → consumer_id < r.max_consumers
    → lease_by_timestamp r t tol consumer_id closest (suc attempts)
      ≡ taken r consumer_id (get_view_by_timestamp r t tol closest)
unfolding lease_by_timestamp
lease_by_timestamp-takes r t tol c n closest h hc =
    let known : leb r.max_consumers c ≡ false = ground arith in
    rw known (
      by_answer (best_from r t tol closest 0 (slot_count r) no_best)
        (get_view_by_timestamp r t tol closest) (best_from-agrees r t tol closest h))
  where
    by_answer :
        (b : BestSlot) (o : Option FramePeek)
        → Same r b o
        → after_search r c (timestamp_attempts r t tol closest c n) b ≡ taken r c o
    by_answer b o (neither d q) = refl
    by_answer b o (both d slot l) =
        let real : (slot == no_slot) ≡ false = ground arith in
        rw real (rw (confirm_self r slot c) refl)
