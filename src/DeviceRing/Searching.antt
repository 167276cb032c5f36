-- ===== src/DeviceRing/Searching.antt =====
-- The search by timestamp, in the terms of its own tests: a slot that passes them and is the closest, or none.

use perception_pipeline.Prelude.{
  Bool, Option, arith, false, get_or, ltb, none, refl, some, subst, suc, true, zero, ℕ, ◌+◌, ◌-◌,
  ◌<◌, ◌^◌, ◌≡◌, ◌≤◌,
}
use perception_pipeline.DeviceRing.{Ring}
use perception_pipeline.DeviceRing.Reads.{FramePeek, distance, is_candidate, peek_at, search_from}

abbrev pub diff_at : Ring → ℕ → ℕ → ℕ
diff_at r t slot = distance t (get_or r.timestamp_ns slot 0)

-- What the answer is, of the slots from `from` to below `to`.
pub data Finds (r : Ring) (t tol from to : ℕ) : Option FramePeek → Type 0 where
  found_at :
      (slot : ℕ)
      → from ≤ slot
      → slot < to
      → is_candidate r t tol slot ≡ true
      → ((j : ℕ)
          → from ≤ j
          → j < to
          → is_candidate r t tol j ≡ true
          → diff_at r t slot ≤ diff_at r t j)
      → Finds r t tol from to (some (peek_at r slot))
  not_found :
      ((j : ℕ) → from ≤ j → j < to → is_candidate r t tol j ≡ false) → Finds r t tol from to none

-- The best so far, of the slots before `slot`.
pub data Best (r : Ring) (t tol slot : ℕ) : ℕ → Option FramePeek → Type 0 where
  best_is :
      (b : ℕ)
      → b < slot
      → is_candidate r t tol b ≡ true
      → ((j : ℕ) → j < slot → is_candidate r t tol j ≡ true → diff_at r t b ≤ diff_at r t j)
      → Best r t tol slot (diff_at r t b) (some (peek_at r b))
  none_yet :
      ((j : ℕ) → j < slot → is_candidate r t tol j ≡ false) → Best r t tol slot (2 ^ 64 - 1) none

Best-Finds :
    (r : Ring) (t tol slot d : ℕ) (o : Option FramePeek)
    → Best r t tol slot d o
    → Finds r t tol 0 slot o
Best-Finds r t tol slot d o (best_is b l c m) = found_at b (omega arith) l c (λ j _. m j)
Best-Finds r t tol slot d o (none_yet h) = not_found (λ j _. h j)

below-next : (P : ℕ → Type 0) (n : ℕ) → ((j : ℕ) → j < n → P j) → P n → (j : ℕ) → j < n + 1 → P j
below-next P n h p j l = by_order (ltb j n) refl
  where
    by_order : (b : Bool) → ltb j n ≡ b → P j
    by_order true e = h j (ground arith)
    by_order false e = let same : n ≡ j = ground arith in subst P same p

module _ (r : Ring) (t tol : ℕ)
    (small : (j : ℕ) → is_candidate r t tol j ≡ true → diff_at r t j < 2 ^ 64 - 1) where
  -- A slot that is no candidate, or no closer, leaves the best as it is.
  keep-Best :
      (slot d : ℕ) (o : Option FramePeek)
      → (is_candidate r t tol slot ≡ true → d ≤ diff_at r t slot)
      → Best r t tol slot d o
      → Best r t tol (slot + 1) d o
  keep-Best slot d o h (best_is b l c m) =
      best_is b (omega arith) c
        (below-next (λ j. is_candidate r t tol j ≡ true → diff_at r t b ≤ diff_at r t j) slot m h)
  keep-Best slot d o h (none_yet m) = none_yet (
      below-next (λ j. is_candidate r t tol j ≡ false) slot m
        (here (is_candidate r t tol slot) refl))
    where
      here : (b : Bool) → is_candidate r t tol slot ≡ b → is_candidate r t tol slot ≡ false
      here false e = e
      here true e = let bad : 1 ≤ 0 = omega (arith, h e, small slot e) in elim bad [ ]

  take-Best :
      (slot d : ℕ) (o : Option FramePeek)
      → is_candidate r t tol slot ≡ true
      → diff_at r t slot < d
      → Best r t tol slot d o
      → Best r t tol (slot + 1) (diff_at r t slot) (some (peek_at r slot))
  take-Best slot d o c l (best_is b lb cb m) = best_is slot (omega arith) c (
      below-next (λ j. is_candidate r t tol j ≡ true → diff_at r t slot ≤ diff_at r t j) slot
        (λ j lj cj. omega (arith, m j lj cj)) (λ _. omega arith))
  take-Best slot d o c l (none_yet m) = best_is slot (omega arith) c (
      below-next (λ j. is_candidate r t tol j ≡ true → diff_at r t slot ≤ diff_at r t j) slot
        (λ j lj cj. ground (arith, m j lj)) (λ _. omega arith))

  pub search_from-Finds :
      (slot n d : ℕ) (o : Option FramePeek)
      → Best r t tol slot d o
      → Finds r t tol 0 (slot + n) (search_from r t tol true slot n d o)
  unfolding search_from
  search_from-Finds slot zero d o b =
      let here : slot ≡ slot + 0 = omega arith in
      subst (λ m. Finds r t tol 0 m o) here (Best-Finds r t tol slot d o b)
  search_from-Finds slot (suc n) d o b =
      let next : slot + 1 + n ≡ slot + suc n = omega arith in
      subst (λ m. Finds r t tol 0 m (search_from r t tol true slot (suc n) d o)) next
        (by_slot (search_from-Finds (slot + 1) n d o)
          (search_from-Finds (slot + 1) n (diff_at r t slot) (some (peek_at r slot)))
          (is_candidate r t tol slot) refl (ltb (diff_at r t slot) d) refl)
    where
      by_slot :
          (Best r t tol (slot + 1) d o
            → Finds r t tol 0 (slot + 1 + n) (search_from r t tol true (slot + 1) n d o))
          → (Best r t tol (slot + 1) (diff_at r t slot) (some (peek_at r slot))
              → Finds r t tol 0 (slot + 1 + n) (
                  search_from r t tol true (slot + 1) n (diff_at r t slot) (some (peek_at r slot))))
          → (c : Bool) → is_candidate r t tol slot ≡ c
          → (closer : Bool) → ltb (diff_at r t slot) d ≡ closer
          → Finds r t tol 0 (slot + 1 + n) (elim c [
            | false ↦ search_from r t tol true (slot + 1) n d o
            | true ↦ elim closer [
              | true ↦
                  search_from r t tol true (slot + 1) n (diff_at r t slot) (some (peek_at r slot))
              | false ↦ search_from r t tol true (slot + 1) n d o
            ]
          ])
      by_slot skip take_it false e closer f = skip (keep-Best slot d o (λ e'. ground arith) b)
      by_slot skip take_it true e true f = take_it (take-Best slot d o e (ground arith) b)
      by_slot skip take_it true e false f = skip (keep-Best slot d o (λ _. ground arith) b)
