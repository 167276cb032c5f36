-- ===== src/FramePairing/Regression.antt =====
-- first_timestamp_regression finds the first place where the clock goes back.
use perception_pipeline.Prelude.{
  sym, subst, List, [], arith, get_or, length, refl, suc, zero, ℕ, ◌+◌, ◌-◌, ◌<◌, ◌∷◌, ◌≡◌, ◌≤◌,
}
use perception_pipeline.FramePairing.{first_timestamp_regression, regression_from}

-- The prefix before the answer goes nowhere back; the answer is the length, or the clock goes back there.
pub record Finds (ts : List ℕ) : Type 0 where
  pub inside : first_timestamp_regression ts ≤ length ts
  pub ordered :
      (k : ℕ) → k + 1 < first_timestamp_regression ts → get_or ts k 0 ≤ get_or ts (k + 1) 0
  pub regresses :
      first_timestamp_regression ts < length ts
      → (1 ≤ first_timestamp_regression ts)
        × (get_or ts (first_timestamp_regression ts) 0
            < get_or ts (first_timestamp_regression ts - 1) 0)

regression_from-at : (i before : ℕ) (ts : List ℕ) → i ≤ regression_from i before ts
unfolding regression_from
regression_from-at i before [] = omega arith
regression_from-at i before (t ∷ ts) = ground (arith, regression_from-at (i + 1) t ts)

regression_from-shift :
    (i before : ℕ) (ts : List ℕ)
    → regression_from (i + 1) before ts ≡ regression_from i before ts + 1
unfolding regression_from
regression_from-shift i before [] = refl
regression_from-shift i before (t ∷ ts) = ground (arith, regression_from-shift (i + 1) t ts)

regression_from-inside : (before : ℕ) (ts : List ℕ) → regression_from 1 before ts ≤ length ts + 1
unfolding regression_from
regression_from-inside before [] = omega arith
regression_from-inside before (t ∷ ts) =
    ground (arith, regression_from-inside t ts, regression_from-shift 1 t ts)

regression_from-ordered :
    (before : ℕ) (ts : List ℕ) (k : ℕ)
    → k + 1 < regression_from 1 before ts
    → get_or (before ∷ ts) k 0 ≤ get_or ts k 0
unfolding regression_from
regression_from-ordered before [] k h = omega arith
regression_from-ordered before (t ∷ ts) zero h = ground arith
regression_from-ordered before (t ∷ ts) (suc k) h =
    regression_from-ordered t ts k (ground (arith, regression_from-shift 1 t ts))

regression_from-regresses :
    (before : ℕ) (ts : List ℕ) (n : ℕ)
    → regression_from 1 before ts ≡ suc n
    → n < length ts
    → get_or ts n 0 < get_or (before ∷ ts) n 0
unfolding regression_from
regression_from-regresses before [] n e h = elim h [ ]
regression_from-regresses before (t ∷ ts) zero e h = ground (arith, regression_from-at 2 t ts)
regression_from-regresses before (t ∷ ts) (suc n) e h =
    regression_from-regresses t ts n (ground (arith, regression_from-shift 1 t ts)) (omega arith)

-- first_timestamp_regression answers at most the length; the timestamps before its answer do not
-- decrease, and if it answers an index of the list, the timestamp there is below the one before.
pub first_timestamp_regression-Finds : (ts : List ℕ) → Finds ts
unfolding first_timestamp_regression
first_timestamp_regression-Finds [] = record {
  inside = omega arith;
  ordered = λ k h. omega arith;
  regresses = λ h. elim h [ ];
}
first_timestamp_regression-Finds (t ∷ ts) = record {
  inside = omega (arith, regression_from-inside t ts);
  ordered = λ k h.
      let next : suc k ≡ k + 1 = omega arith in
      subst (λ n. get_or (t ∷ ts) k 0 ≤ get_or (t ∷ ts) n 0) next
        (regression_from-ordered t ts k h);
  regresses = λ h.
      let one = regression_from-at 1 t ts in
      let back : regression_from 1 t ts ≡ suc (regression_from 1 t ts - 1) = omega arith in
      (
        one,
        subst (λ n. get_or (t ∷ ts) n 0 < get_or (t ∷ ts) (regression_from 1 t ts - 1) 0) (sym back)
            (regression_from-regresses t ts (regression_from 1 t ts - 1) back (omega arith)),
      );
}
