-- ===== src/FramePairing/Partition.antt =====
-- Nothing is lost or doubled by the merge, and its statistics count its lists.
use perception_pipeline.Prelude.{
  List, [], arith, count, count-append, if◌then◌else◌, length, ltb, map, refl, true, ℕ, ◌%◌, ◌++◌,
  ◌+◌, ◌==◌, ◌^◌, ◌∷◌, ◌≡◌,
}
use perception_pipeline.FramePairing.{
  neg, difference, FramePair, PairResult, add_pair, skip_a, skip_b, nothing_yet, pair_by_timestamp,
  accounts_for,
}
use perception_pipeline.FramePairing.Merge.{Rest-start, merge_keeps}

-- Every index below `i` of the first array, and below `j` of the second, stands once in the
-- result, and no other does.
pub record Books (r : PairResult) (i j : ℕ) : Type 0 where
  pub once_a :
      (k : ℕ)
      → count k (map (λ p. p.index_a) r.pairs) + count k r.unpaired_a ≡ (if ltb k i then 1 else 0)
  pub once_b :
      (k : ℕ)
      → count k (map (λ p. p.index_b) r.pairs) + count k r.unpaired_b ≡ (if ltb k j then 1 else 0)
  pub length_a : length r.pairs + length r.unpaired_a ≡ i
  pub length_b : length r.pairs + length r.unpaired_b ≡ j
  pub paired : r.stats.paired ≡ length r.pairs % 2 ^ 64
  pub unpaired_a : r.stats.unpaired_a ≡ length r.unpaired_a % 2 ^ 64
  pub unpaired_b : r.stats.unpaired_b ≡ length r.unpaired_b % 2 ^ 64

pub length-append_one : {A : Type 0} (xs : List A) (x : A) → length (xs ++ x ∷ []) ≡ length xs + 1
length-append_one [] x = refl
length-append_one (y ∷ xs) x = omega (arith, length-append_one xs x)

count-map-append :
    (f : FramePair → ℕ) (xs : List FramePair) (p : FramePair) (k : ℕ)
    → count k (map f (xs ++ p ∷ [])) ≡ count k (map f xs) + (if f p == k then 1 else 0)
count-map-append f [] p k = omega arith
count-map-append f (x ∷ xs) p k = omega (arith, count-map-append f xs p k)

add_pair-Books :
    (r : PairResult) (i j a b : ℕ) → Books r i j → Books (add_pair r i j a b) (i + 1) (j + 1)
unfolding add_pair
add_pair-Books r i j a b k =
    let more : length (add_pair r i j a b).pairs ≡ length r.pairs + 1 =
      length-append_one r.pairs _ in
    record {
      once_a = λ n. ground (
        arith,
        k.once_a n,
        count-map-append (λ p. p.index_a) r.pairs
            (record {
              pair_id = r.stats.paired;
              timestamp_a = a;
              timestamp_b = b;
              index_a = i;
              index_b = j;
              skew_ns = neg (difference a b);
            })
            n,
      );
      once_b = λ n. ground (
        arith,
        k.once_b n,
        count-map-append (λ p. p.index_b) r.pairs
            (record {
              pair_id = r.stats.paired;
              timestamp_a = a;
              timestamp_b = b;
              index_a = i;
              index_b = j;
              skew_ns = neg (difference a b);
            })
            n,
      );
      length_a = omega (arith, k.length_a, more);
      length_b = omega (arith, k.length_b, more);
      paired = ground (arith, k.paired, more);
      unpaired_a = k.unpaired_a;
      unpaired_b = k.unpaired_b;
    }

skip_a-Books : (r : PairResult) (i j : ℕ) → Books r i j → Books (skip_a r i) (i + 1) j
unfolding skip_a
skip_a-Books r i j k =
    let more : length (skip_a r i).unpaired_a ≡ length r.unpaired_a + 1 =
      length-append_one r.unpaired_a i in
    record {
      once_a = λ n. ground (arith, k.once_a n, count-append n r.unpaired_a (i ∷ []));
      once_b = k.once_b;
      length_a = omega (arith, k.length_a, more);
      length_b = k.length_b;
      paired = k.paired;
      unpaired_a = ground (arith, k.unpaired_a, more);
      unpaired_b = k.unpaired_b;
    }

skip_b-Books : (r : PairResult) (i j : ℕ) → Books r i j → Books (skip_b r j) i (j + 1)
unfolding skip_b
skip_b-Books r i j k =
    let more : length (skip_b r j).unpaired_b ≡ length r.unpaired_b + 1 =
      length-append_one r.unpaired_b j in
    record {
      once_a = k.once_a;
      once_b = λ n. ground (arith, k.once_b n, count-append n r.unpaired_b (j ∷ []));
      length_a = k.length_a;
      length_b = omega (arith, k.length_b, more);
      paired = k.paired;
      unpaired_a = k.unpaired_a;
      unpaired_b = ground (arith, k.unpaired_b, more);
    }

-- Every index of either array stands exactly once in the result of pair_by_timestamp, in a pair
-- or among the unpaired of its side, and no other index does; the statistics count the pairs
-- and the unpaired modulo 2 ^ 64.
pub pair_by_timestamp-Books :
    (as' bs : List ℕ) (tolerance_ns : ℕ)
    → Books (pair_by_timestamp as' bs tolerance_ns) (length as') (length bs)
unfolding pair_by_timestamp
pair_by_timestamp-Books as' bs tolerance_ns =
    merge_keeps tolerance_ns Books (λ r i j a b _ _ ra rb e k. add_pair-Books r i j a b k)
      (λ r i j a b _ _ ra rb e k. skip_a-Books r i j k)
      (λ r i j a b _ _ ra rb e k. skip_b-Books r i j k) (λ r i j _ _ ra rb k. skip_a-Books r i j k)
      (λ r i j _ _ ra rb k. skip_b-Books r i j k) nothing_yet 0 0 as' bs (Rest-start as')
      (Rest-start bs)
      record {
        once_a = λ n. ground arith;
        once_b = λ n. ground arith;
        length_a = refl;
        length_b = refl;
        paired = refl;
        unpaired_a = refl;
        unpaired_b = refl;
      }

-- The check accounts_for holds of every result of pair_by_timestamp, whatever the arrays are,
-- as its sums wrap around like the counters.
pub accounts_for-pair_by_timestamp :
    (as' bs : List ℕ) (tolerance_ns : ℕ)
    → accounts_for (pair_by_timestamp as' bs tolerance_ns).stats (length as') (length bs) ≡ true
unfolding accounts_for
accounts_for-pair_by_timestamp as' bs tolerance_ns =
    let books = pair_by_timestamp-Books as' bs tolerance_ns in
    ground (arith, books.length_a, books.length_b, books.paired, books.unpaired_a, books.unpaired_b)
