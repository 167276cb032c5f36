-- ===== src/FramePairing.antt =====
-- capture/include/frame_pairing.hpp: the offline merge of two cameras' timestamps. Timestamps are
-- uint64_t; their difference is taken as int64_t, exactly (an overflow there would be undefined).
pub mod Merge
pub mod Partition
pub mod Complete
pub mod Sound
pub mod Regression
mod Tests
use perception_pipeline.Prelude.{
  Bool, List, [], add64, if◌then◌else◌, inc64, leb, ltb, max, ℕ, ◌%◌, ◌*◌, ◌++◌, ◌+◌, ◌==◌, ◌^◌,
  ◌∷◌,
}
use perception_pipeline.Prelude.Int.{ℤ, ◌-ℤ◌, signed64, nat_abs, is_negative, neg}

pub record FramePair : Type 0 where
  pub pair_id : ℕ
  pub timestamp_a : ℕ
  pub timestamp_b : ℕ
  pub index_a : ℕ
  pub index_b : ℕ
  pub skew_ns : ℤ

pub record PairStats : Type 0 where
  pub paired : ℕ
  pub unpaired_a : ℕ
  pub unpaired_b : ℕ
  pub max_abs_skew_ns : ℕ

unfoldable pub accounts_for : PairStats → ℕ → ℕ → Bool
accounts_for s count_a count_b =
    add64 (add64 ((2 * s.paired) % 2 ^ 64) s.unpaired_a) s.unpaired_b == add64 count_a count_b

pub record PairResult : Type 0 where
  pub pairs : List FramePair
  pub unpaired_a : List ℕ
  pub unpaired_b : List ℕ
  pub stats : PairStats

abbrev pub nothing_yet : PairResult
nothing_yet = record {
  pairs = [];
  unpaired_a = [];
  unpaired_b = [];
  stats = record { paired = 0; unpaired_a = 0; unpaired_b = 0; max_abs_skew_ns = 0 };
}

-- The loop of `first_timestamp_regression`, from index `i` on, after the timestamp `before`.
unfoldable pub regression_from : ℕ → ℕ → List ℕ → ℕ
regression_from i before [] = i
regression_from i before (t ∷ ts) = if ltb t before then i else regression_from (i + 1) t ts

unfoldable pub first_timestamp_regression : List ℕ → ℕ
unfolding regression_from
first_timestamp_regression [] = 0
first_timestamp_regression (t ∷ ts) = regression_from 1 t ts

-- The signed difference of two timestamps, `d` in the source.
unfoldable pub difference : ℕ → ℕ → ℤ
unfolding ◌-ℤ◌
difference a b = signed64 a -ℤ signed64 b

pub data Verdict : Type 0 where
  match older_a older_b : Verdict

-- The tests of the loop: within the tolerance, or which of the two is the older.
unfoldable pub compare_heads : ℕ → ℕ → ℕ → Verdict
unfolding difference
compare_heads tolerance_ns a b =
    if leb (nat_abs (difference a b)) tolerance_ns
    then match
    else if is_negative (difference a b)
    then older_a
    else older_b

unfoldable pub add_pair : PairResult → ℕ → ℕ → ℕ → ℕ → PairResult
unfolding difference
add_pair r i j a b = record r {
  pairs =
      r.pairs
      ++ record {
        pair_id = r.stats.paired;
        timestamp_a = a;
        timestamp_b = b;
        index_a = i;
        index_b = j;
        skew_ns = neg (difference a b);
      }
        ∷ [];
  stats = record r.stats {
    paired = inc64 r.stats.paired;
    max_abs_skew_ns = max r.stats.max_abs_skew_ns (nat_abs (neg (difference a b)));
  };
}

unfoldable pub skip_a : PairResult → ℕ → PairResult
skip_a r i = record r {
  unpaired_a = r.unpaired_a ++ i ∷ [];
  stats = record r.stats { unpaired_a = inc64 r.stats.unpaired_a };
}

unfoldable pub skip_b : PairResult → ℕ → PairResult
skip_b r j = record r {
  unpaired_b = r.unpaired_b ++ j ∷ [];
  stats = record r.stats { unpaired_b = inc64 r.stats.unpaired_b };
}

-- The two loops behind the merge, for what is left over.
unfoldable pub leftover_a : PairResult → ℕ → List ℕ → PairResult
leftover_a r i [] = r
leftover_a r i (a ∷ as') = leftover_a (skip_a r i) (i + 1) as'

unfoldable pub leftover_b : PairResult → ℕ → List ℕ → PairResult
leftover_b r j [] = r
leftover_b r j (b ∷ bs) = leftover_b (skip_b r j) (j + 1) bs

-- The merge: the lists are what is left of the arrays from `i` and from `j` on.
unfoldable pub merge : ℕ → PairResult → ℕ → ℕ → List ℕ → List ℕ → PairResult
merge tolerance_ns r i j [] bs = leftover_b r j bs
merge tolerance_ns r i j (a ∷ as') [] = leftover_a r i (a ∷ as')
merge tolerance_ns r i j (a ∷ as') (b ∷ bs) = elim (compare_heads tolerance_ns a b) [
  | match ↦ merge tolerance_ns (add_pair r i j a b) (i + 1) (j + 1) as' bs
  | older_a ↦ merge tolerance_ns (skip_a r i) (i + 1) j as' (b ∷ bs)
  | older_b ↦ merge tolerance_ns (skip_b r j) i (j + 1) (a ∷ as') bs
]

unfoldable pub pair_by_timestamp : List ℕ → List ℕ → ℕ → PairResult
unfolding merge
pair_by_timestamp as' bs tolerance_ns = merge tolerance_ns nothing_yet 0 0 as' bs
