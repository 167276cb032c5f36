-- ===== src/FramePairing/Sound.antt =====
-- What the merge pairs belongs together, and what belongs together it pairs.
use perception_pipeline.Prelude.{
  Bool, List, [], arith, get_or, length, ltb, max, refl, subst, suc, true, zero, ℕ, ◌%◌, ◌&&◌, ◌++◌,
  ◌+◌, ◌<◌, ◌^◌, ◌∷◌, ◌≡◌, ◌≤◌,
}
use perception_pipeline.Prelude.Int.{pos_part, neg_part, neg, nat_abs, ◌-ℤ◌}
use perception_pipeline.FramePairing.{
  difference, FramePair, PairResult, match, older_a, older_b, compare_heads, add_pair, skip_a,
  skip_b, nothing_yet, pair_by_timestamp,
}
use perception_pipeline.FramePairing.Partition.{length-append_one}
use perception_pipeline.FramePairing.Merge.{Rest, Rest-start, Rest-head, merge_keeps}

abbrev pub all_below : ℕ → List ℕ → Bool
all_below n [] = true
all_below n (x ∷ xs) = ltb x n && all_below n xs

pub compare-near :
    (tolerance_ns a b : ℕ)
    → a < 2 ^ 63
    → b < 2 ^ 63
    → compare_heads tolerance_ns a b ≡ match
    → a ≤ b + tolerance_ns
unfolding compare_heads difference ◌-ℤ◌
compare-near tolerance_ns a b ha hb e = ground arith

pub compare-near' :
    (tolerance_ns a b : ℕ)
    → a < 2 ^ 63
    → b < 2 ^ 63
    → compare_heads tolerance_ns a b ≡ match
    → b ≤ a + tolerance_ns
unfolding compare_heads difference ◌-ℤ◌
compare-near' tolerance_ns a b ha hb e = ground arith

pub compare-far_a :
    (tolerance_ns a b : ℕ)
    → a < 2 ^ 63
    → b < 2 ^ 63
    → compare_heads tolerance_ns a b ≡ older_a
    → a + tolerance_ns < b
unfolding compare_heads difference ◌-ℤ◌
compare-far_a tolerance_ns a b ha hb e = ground arith

pub compare-far_b :
    (tolerance_ns a b : ℕ)
    → a < 2 ^ 63
    → b < 2 ^ 63
    → compare_heads tolerance_ns a b ≡ older_b
    → b + tolerance_ns < a
unfolding compare_heads difference ◌-ℤ◌
compare-far_b tolerance_ns a b ha hb e = ground arith

skew-difference :
    (a b : ℕ)
    → a < 2 ^ 63
    → b < 2 ^ 63
    → pos_part (neg (difference a b)) + a ≡ neg_part (neg (difference a b)) + b
unfolding difference ◌-ℤ◌
skew-difference a b ha hb = ground arith

pub below-at :
    (n : ℕ) (xs : List ℕ) (i : ℕ) → all_below n xs ≡ true → i < length xs → get_or xs i 0 < n
below-at n [] i h l = elim l [ ]
below-at n (x ∷ xs) zero h l = ground arith
below-at n (x ∷ xs) (suc i) h l = below-at n xs i (ground arith) (omega arith)

pub below-get_or :
    (n : ℕ) (xs : List ℕ) (i x : ℕ) (ys : List ℕ)
    → all_below n xs ≡ true
    → Rest xs i (x ∷ ys)
    → x < n
below-get_or n xs i x ys h r =
    subst (λ y. y < n) (Rest-head r) (below-at n xs i h (omega (arith, r.total)))

-- A pair names two frames of the arrays, with their timestamps, at most the tolerance apart, and
-- its skew is the second's timestamp less the first's.
pub record Matched (as' bs : List ℕ) (tolerance_ns : ℕ) (p : FramePair) : Type 0 where
  pub inside_a : p.index_a < length as'
  pub inside_b : p.index_b < length bs
  pub stamp_a : get_or as' p.index_a 0 ≡ p.timestamp_a
  pub stamp_b : get_or bs p.index_b 0 ≡ p.timestamp_b
  pub near_a : p.timestamp_a ≤ p.timestamp_b + tolerance_ns
  pub near_b : p.timestamp_b ≤ p.timestamp_a + tolerance_ns
  pub skew : pos_part p.skew_ns + p.timestamp_a ≡ neg_part p.skew_ns + p.timestamp_b

-- The numbers in a list of pairs: they are numbered in order from 0, their indices increase on
-- both sides and stay below `i` and `j`, and no skew exceeds `m`.
pub data Every (as' bs : List ℕ) (tolerance_ns : ℕ) : List FramePair → ℕ → ℕ → ℕ → Type 0 where
  start : Every as' bs tolerance_ns [] 0 0 0
  next :
      {ps : List FramePair} {i j m : ℕ} (p : FramePair)
      → Every as' bs tolerance_ns ps i j m
      → Matched as' bs tolerance_ns p
      → p.pair_id ≡ length ps % 2 ^ 64
      → i ≤ p.index_a
      → j ≤ p.index_b
      → Every as' bs tolerance_ns
          (ps ++ p ∷ [])
          (p.index_a + 1)
          (p.index_b + 1)
          (max m (nat_abs p.skew_ns))
  later :
      {ps : List FramePair} {i j i' j' m : ℕ}
      → Every as' bs tolerance_ns ps i j m
      → i ≤ i'
      → j ≤ j'
      → Every as' bs tolerance_ns ps i' j' m

pub record Fitting (as' bs : List ℕ) (tolerance_ns : ℕ) (r : PairResult) (i j : ℕ) : Type 0 where
  pub every : Every as' bs tolerance_ns r.pairs i j r.stats.max_abs_skew_ns
  pub numbered : r.stats.paired ≡ length r.pairs % 2 ^ 64

-- If all timestamps are below 2 ^ 63, every pair of pair_by_timestamp names two frames of the
-- arrays with their timestamps, at most the tolerance apart, its skew is the second timestamp less the
-- first, the indices increase from pair to pair on both sides, the pairs are numbered from 0 modulo 2 ^ 64,
-- and the largest |skew| is the one in the statistics.
pub pair_by_timestamp-Fitting :
    (as' bs : List ℕ) (tolerance_ns : ℕ)
    → all_below (2 ^ 63) as' ≡ true
    → all_below (2 ^ 63) bs ≡ true
    → Fitting as' bs tolerance_ns (pair_by_timestamp as' bs tolerance_ns) (length as') (length bs)
unfolding pair_by_timestamp add_pair skip_a skip_b
pair_by_timestamp-Fitting as' bs tol ha hb =
    merge_keeps tol (Fitting as' bs tol)
      (λ r i j a b _ _ ra rb e k. record {
        every =
            let la = below-get_or (2 ^ 63) as' i a _ ha ra in
            let lb = below-get_or (2 ^ 63) bs j b _ hb rb in
            next _ k.every
              record {
                inside_a = omega (arith, ra.total);
                inside_b = omega (arith, rb.total);
                stamp_a = Rest-head ra;
                stamp_b = Rest-head rb;
                near_a = compare-near tol a b la lb e;
                near_b = compare-near' tol a b la lb e;
                skew = skew-difference a b la lb;
              }
              k.numbered (omega arith) (omega arith);
        numbered = omega (
          arith,
          k.numbered,
          length-append_one r.pairs (record {
            pair_id = r.stats.paired;
            timestamp_a = a;
            timestamp_b = b;
            index_a = i;
            index_b = j;
            skew_ns = neg (difference a b);
          }),
        );
      })
      (λ r i j a b _ _ ra rb e k. record {
        every = later k.every (omega arith) (omega arith);
        numbered = k.numbered;
      })
      (λ r i j a b _ _ ra rb e k. record {
        every = later k.every (omega arith) (omega arith);
        numbered = k.numbered;
      })
      (λ r i j a _ ra rb k. record {
        every = later k.every (omega arith) (omega arith);
        numbered = k.numbered;
      })
      (λ r i j b _ ra rb k. record {
        every = later k.every (omega arith) (omega arith);
        numbered = k.numbered;
      })
      nothing_yet 0 0 as' bs (Rest-start as') (Rest-start bs)
      record { every = start; numbered = refl }
