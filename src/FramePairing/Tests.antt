-- ===== src/FramePairing/Tests.antt =====
-- The merge on a few frames, and an instance of each theorem on it.
use perception_pipeline.Prelude.{List, [], arith, map, refl, true, ℕ, ◌*◌, ◌+◌, ◌∷◌, ◌≡◌}
use perception_pipeline.FramePairing.{
  pair_by_timestamp, first_timestamp_regression, compare_heads, difference, add_pair, skip_a,
  skip_b, leftover_b,
}
use perception_pipeline.FramePairing.Partition.{Books, pair_by_timestamp-Books}
use perception_pipeline.FramePairing.Sound.{Fitting, pair_by_timestamp-Fitting}
use perception_pipeline.FramePairing.Complete.{has_pair, pair_by_timestamp-pairs_near}
use perception_pipeline.FramePairing.Regression.{first_timestamp_regression-Finds, Finds}

abbrev left : List ℕ
left = 1000 ∷ 2000 ∷ 3000 ∷ []

abbrev right : List ℕ
right = 2010 ∷ 2995 ∷ 4000 ∷ 5000 ∷ []

indices :
    map (λ p. p.index_a * 10 + p.index_b) (pair_by_timestamp left right 50).pairs ≡ 10 ∷ 21 ∷ []
unfolding pair_by_timestamp difference compare_heads leftover_b skip_b add_pair skip_a
indices = refl

leftovers : (pair_by_timestamp left right 50).unpaired_b ≡ 2 ∷ 3 ∷ []
unfolding pair_by_timestamp difference compare_heads leftover_b skip_b add_pair skip_a
leftovers = refl

regression : first_timestamp_regression (3 ∷ 5 ∷ 4 ∷ 6 ∷ []) ≡ 2
unfolding first_timestamp_regression
regression = refl

pair_by_timestamp-Books_example : Books (pair_by_timestamp left right 50) 3 4
pair_by_timestamp-Books_example = pair_by_timestamp-Books left right 50

pair_by_timestamp-Fitting_example : Fitting left right 50 (pair_by_timestamp left right 50) 3 4
pair_by_timestamp-Fitting_example = pair_by_timestamp-Fitting left right 50 refl refl

pair_by_timestamp-pairs_near_example : has_pair 2 1 (pair_by_timestamp left right 50).pairs ≡ true
pair_by_timestamp-pairs_near_example =
    pair_by_timestamp-pairs_near left right 50 2 1 refl refl refl refl (omega arith) (omega arith)
      (omega arith) (omega arith)

first_timestamp_regression-Finds_example : Finds (3 ∷ 5 ∷ 4 ∷ 6 ∷ [])
first_timestamp_regression-Finds_example = first_timestamp_regression-Finds (3 ∷ 5 ∷ 4 ∷ 6 ∷ [])
