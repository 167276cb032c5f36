-- ===== src/FramePairing/Complete.antt =====
-- No partner is overlooked: with frames further apart than twice the tolerance, the merge pairs
-- every two frames that belong together.
use perception_pipeline.Prelude.{
  Bool, List, [], ap, arith, false, get_or, inl, inr, length, ltb, suc, true, zero, ℕ, ◌&&◌, ◌*◌,
  ◌++◌, ◌+◌, ◌<◌, ◌==◌, ◌^◌, ◌||◌, ◌∷◌, ◌≡◌, ◌≤◌, ◌⊎◌,
}
use perception_pipeline.Prelude.Int.{neg}
use perception_pipeline.FramePairing.{
  merge, difference, FramePair, PairResult, match, older_a, older_b, compare_heads, add_pair,
  skip_a, skip_b, nothing_yet, pair_by_timestamp,
}
use perception_pipeline.FramePairing.Merge.{Rest, Rest-start, Rest-head, merge_keeps}
use perception_pipeline.FramePairing.Sound.{
  all_below, below-get_or, compare-near, compare-near', compare-far_a, compare-far_b,
}

-- Each timestamp is more than `gap` above the one before it.
abbrev pub spaced : ℕ → List ℕ → Bool
spaced gap [] = true
spaced gap (x ∷ []) = true
spaced gap (x ∷ y ∷ ys) = ltb (x + gap) y && spaced gap (y ∷ ys)

abbrev pub has_pair : ℕ → ℕ → List FramePair → Bool
has_pair k l [] = false
has_pair k l (p ∷ ps) = (p.index_a == k && p.index_b == l) || has_pair k l ps

spaced-head :
    (gap x : ℕ) (xs : List ℕ) (k : ℕ)
    → spaced gap (x ∷ xs) ≡ true
    → k < length xs
    → x + gap < get_or xs k 0
spaced-head gap x [] k h l = elim l [ ]
spaced-head gap x (y ∷ ys) zero h l = ground arith
spaced-head gap x (y ∷ ys) (suc k) h l =
    let below = spaced-head gap y ys k (ground arith) (omega arith) in ground arith

spaced-at :
    (gap : ℕ) (xs : List ℕ) (i k : ℕ)
    → spaced gap xs ≡ true
    → i < k
    → k < length xs
    → get_or xs i 0 + gap < get_or xs k 0
spaced-at gap [] i k h lt l = elim l [ ]
spaced-at gap (x ∷ xs) i zero h lt l = elim lt [ ]
spaced-at gap (x ∷ xs) zero (suc k) h lt l = spaced-head gap x xs k h (omega arith)
spaced-at gap (x ∷ []) (suc i) (suc k) h lt l = omega arith
spaced-at gap (x ∷ y ∷ ys) (suc i) (suc k) h lt l =
    spaced-at gap (y ∷ ys) i k (ground arith) (omega arith) (omega arith)

has_pair-append :
    (k l : ℕ) (ps : List FramePair) (p : FramePair)
    → has_pair k l (ps ++ p ∷ []) ≡ (has_pair k l ps || (p.index_a == k && p.index_b == l))
has_pair-append k l [] p = ground arith
has_pair-append k l (q ∷ ps) p = ground (arith, has_pair-append k l ps p)

-- The two frames are paired already, or both are still to come.
abbrev Reached : ℕ → ℕ → PairResult → ℕ → ℕ → Type 0
Reached k l r i j = (has_pair k l r.pairs ≡ true) ⊎ ((i ≤ k) × (j ≤ l))

le-cases : (a b : ℕ) → a ≤ b → (a ≡ b) ⊎ (a < b)
le-cases a b h = ground arith

module _ (A B : List ℕ) (tolerance_ns k l : ℕ) (below_A : all_below (2 ^ 63) A ≡ true)
    (below_B : all_below (2 ^ 63) B ≡ true) (spaced_A : spaced (2 * tolerance_ns) A ≡ true)
    (spaced_B : spaced (2 * tolerance_ns) B ≡ true) (inside_A : k < length A)
    (inside_B : l < length B) (near_a : get_or A k 0 ≤ get_or B l 0 + tolerance_ns)
    (near_b : get_or B l 0 ≤ get_or A k 0 + tolerance_ns) where
  -- Two heads that match are the two frames, or neither of them is one of the two.
  at_match :
      (r : PairResult) (i j a b : ℕ) (as' bs : List ℕ)
      → Rest A i (a ∷ as')
      → Rest B j (b ∷ bs)
      → compare_heads tolerance_ns a b ≡ match
      → Reached k l r i j
      → Reached k l (add_pair r i j a b) (i + 1) (j + 1)
  unfolding add_pair
  at_match r i j a b as' bs ra rb e (inl h) = inl (
      ground (
        arith,
        has_pair-append k l r.pairs (record {
          pair_id = r.stats.paired;
          timestamp_a = a;
          timestamp_b = b;
          index_a = i;
          index_b = j;
          skew_ns = neg (difference a b);
        }),
      ))
  at_match r i j a b as' bs ra rb e (inr (hk, hl)) =
      let la = below-get_or (2 ^ 63) A i a _ below_A ra in
      let lb = below-get_or (2 ^ 63) B j b _ below_B rb in
      let n1 = compare-near tolerance_ns a b la lb e in
      let n2 = compare-near' tolerance_ns a b la lb e in
      by_order n1 n2 (le-cases i k hk) (le-cases j l hl)
    where
      by_order :
          (a ≤ b + tolerance_ns)
          → (b ≤ a + tolerance_ns)
          → (i ≡ k) ⊎ (i < k)
          → (j ≡ l) ⊎ (j < l)
          → Reached k l (add_pair r i j a b) (i + 1) (j + 1)
      by_order n1 n2 (inl ek) (inl el) = inl (
          ground (
            arith,
            has_pair-append k l r.pairs (record {
              pair_id = r.stats.paired;
              timestamp_a = a;
              timestamp_b = b;
              index_a = i;
              index_b = j;
              skew_ns = neg (difference a b);
            }),
          ))
      by_order n1 n2 (inl ek) (inr lt) =
          let bad : 1 ≤ 0 = omega (
            arith,
            spaced-at (2 * tolerance_ns) B j l spaced_B lt inside_B,
            Rest-head ra,
            Rest-head rb,
            ap (λ n. get_or A n 0) ek,
          ) in
          elim bad [ ]
      by_order n1 n2 (inr lt) (inl el) =
          let bad : 1 ≤ 0 = omega (
            arith,
            spaced-at (2 * tolerance_ns) A i k spaced_A lt inside_A,
            Rest-head ra,
            Rest-head rb,
            ap (λ n. get_or B n 0) el,
          ) in
          elim bad [ ]
      by_order n1 n2 (inr lt) (inr lt') = inr (omega arith, omega arith)

  from_l : (j : ℕ) → j ≤ l → get_or B j 0 ≤ get_or B l 0
  from_l j h = by_order (le-cases j l h)
    where
      by_order : (j ≡ l) ⊎ (j < l) → get_or B j 0 ≤ get_or B l 0
      by_order (inl e) = omega (arith, ap (λ n. get_or B n 0) e)
      by_order (inr lt) = omega (arith, spaced-at (2 * tolerance_ns) B j l spaced_B lt inside_B)

  from_k : (i : ℕ) → i ≤ k → get_or A i 0 ≤ get_or A k 0
  from_k i h = by_order (le-cases i k h)
    where
      by_order : (i ≡ k) ⊎ (i < k) → get_or A i 0 ≤ get_or A k 0
      by_order (inl e) = omega (arith, ap (λ n. get_or A n 0) e)
      by_order (inr lt) = omega (arith, spaced-at (2 * tolerance_ns) A i k spaced_A lt inside_A)

  -- A frame that is skipped is not the one.
  at_older_a :
      (r : PairResult) (i j a b : ℕ) (as' bs : List ℕ)
      → Rest A i (a ∷ as')
      → Rest B j (b ∷ bs)
      → compare_heads tolerance_ns a b ≡ older_a
      → Reached k l r i j
      → Reached k l (skip_a r i) (i + 1) j
  unfolding skip_a
  at_older_a r i j a b as' bs ra rb e (inl h) = inl h
  at_older_a r i j a b as' bs ra rb e (inr (hk, hl)) = by_order (le-cases i k hk)
    where
      by_order : (i ≡ k) ⊎ (i < k) → Reached k l (skip_a r i) (i + 1) j
      by_order (inr lt) = inr (omega arith, hl)
      by_order (inl ek) =
          let la = below-get_or (2 ^ 63) A i a _ below_A ra in
          let lb = below-get_or (2 ^ 63) B j b _ below_B rb in
          let bad : 1 ≤ 0 = omega (
            arith,
            compare-far_a tolerance_ns a b la lb e,
            from_l j hl,
            Rest-head ra,
            Rest-head rb,
            ap (λ n. get_or A n 0) ek,
          ) in
          elim bad [ ]

  at_older_b :
      (r : PairResult) (i j a b : ℕ) (as' bs : List ℕ)
      → Rest A i (a ∷ as')
      → Rest B j (b ∷ bs)
      → compare_heads tolerance_ns a b ≡ older_b
      → Reached k l r i j
      → Reached k l (skip_b r j) i (j + 1)
  unfolding skip_b
  at_older_b r i j a b as' bs ra rb e (inl h) = inl h
  at_older_b r i j a b as' bs ra rb e (inr (hk, hl)) = by_order (le-cases j l hl)
    where
      by_order : (j ≡ l) ⊎ (j < l) → Reached k l (skip_b r j) i (j + 1)
      by_order (inr lt) = inr (hk, omega arith)
      by_order (inl ek) =
          let la = below-get_or (2 ^ 63) A i a _ below_A ra in
          let lb = below-get_or (2 ^ 63) B j b _ below_B rb in
          let bad : 1 ≤ 0 = omega (
            arith,
            compare-far_b tolerance_ns a b la lb e,
            from_k i hk,
            Rest-head ra,
            Rest-head rb,
            ap (λ n. get_or B n 0) ek,
          ) in
          elim bad [ ]

  at_end_of_b :
      (r : PairResult) (i j : ℕ)
      → Rest B j []
      → Reached k l r i j
      → Reached k l (skip_a r i) (i + 1) j
  unfolding skip_a
  at_end_of_b r i j rb (inl h) = inl h
  at_end_of_b r i j rb (inr (hk, hl)) = let bad : 1 ≤ 0 = omega (arith, rb.total) in elim bad [ ]

  at_end_of_a :
      (r : PairResult) (i j : ℕ)
      → Rest A i []
      → Reached k l r i j
      → Reached k l (skip_b r j) i (j + 1)
  unfolding skip_b
  at_end_of_a r i j ra (inl h) = inl h
  at_end_of_a r i j ra (inr (hk, hl)) = let bad : 1 ≤ 0 = omega (arith, ra.total) in elim bad [ ]

  in_the_end : (r : PairResult) → Reached k l r (length A) (length B) → has_pair k l r.pairs ≡ true
  in_the_end r (inl h) = h
  in_the_end r (inr (hk, hl)) = let bad : 1 ≤ 0 = omega arith in elim bad [ ]

  pairs_near : has_pair k l (pair_by_timestamp A B tolerance_ns).pairs ≡ true
  unfolding pair_by_timestamp
  pairs_near = in_the_end (merge tolerance_ns nothing_yet 0 0 A B) (
      merge_keeps tolerance_ns (Reached k l) at_match at_older_a at_older_b
        (λ r i j a as' ra rb h. at_end_of_b r i j rb h)
        (λ r i j b bs ra rb h. at_end_of_a r i j ra h) nothing_yet 0 0 A B (Rest-start A)
        (Rest-start B) (inr (omega arith, omega arith)))

-- If all timestamps are below 2 ^ 63 and the frames of each array are more than twice the tolerance
-- apart, every two frames k and l of the arrays that are at most the tolerance apart
-- are paired with each other by pair_by_timestamp.
pub pair_by_timestamp-pairs_near :
    (as' bs : List ℕ) (tolerance_ns k l : ℕ)
    → all_below (2 ^ 63) as' ≡ true
    → all_below (2 ^ 63) bs ≡ true
    → spaced (2 * tolerance_ns) as' ≡ true
    → spaced (2 * tolerance_ns) bs ≡ true
    → k < length as'
    → l < length bs
    → get_or as' k 0 ≤ get_or bs l 0 + tolerance_ns
    → get_or bs l 0 ≤ get_or as' k 0 + tolerance_ns
    → has_pair k l (pair_by_timestamp as' bs tolerance_ns).pairs ≡ true
pair_by_timestamp-pairs_near as' bs t k l a b sa sb ia ib na nb =
    pairs_near as' bs t k l a b sa sb ia ib na nb
