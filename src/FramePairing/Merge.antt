-- ===== src/FramePairing/Merge.antt =====
-- The merge as a run of three steps: what every step keeps holds of the result.
use perception_pipeline.Prelude.{
  List, [], ap, arith, get_or, length, refl, subst, suc, sym, ℕ, ◌+◌, ◌∙◌, ◌∷◌, ◌≡◌,
}
use perception_pipeline.FramePairing.{
  PairResult, match, older_a, older_b, compare_heads, add_pair, skip_a, skip_b, leftover_a,
  leftover_b, merge,
}

-- What is left of an array from index `i` on.
pub record Rest (whole : List ℕ) (i : ℕ) (rest : List ℕ) : Type 0 where
  pub total : i + length rest ≡ length whole
  pub at : (k : ℕ) → get_or whole (i + k) 0 ≡ get_or rest k 0

pub Rest-start : (xs : List ℕ) → Rest xs 0 xs
Rest-start xs = record { total = omega arith; at = λ k. ap (λ n. get_or xs n 0) (omega arith) }

pub Rest-next : {xs : List ℕ} {i x : ℕ} {ys : List ℕ} → Rest xs i (x ∷ ys) → Rest xs (i + 1) ys
Rest-next {xs} {i} {x} {ys} r = record {
  total = omega (arith, r.total);
  at = λ k.
      let next : i + (k + 1) ≡ i + 1 + k = omega arith in
      let one_more : k + 1 ≡ suc k = omega arith in
      (sym (ap (λ n. get_or xs n 0) next) ∙ r.at (k + 1)) ∙ ap (λ n. get_or (x ∷ ys) n 0) one_more;
}

pub Rest-head : {xs : List ℕ} {i x : ℕ} {ys : List ℕ} → Rest xs i (x ∷ ys) → get_or xs i 0 ≡ x
Rest-head {xs} {i} r =
    let here : i + 0 ≡ i = omega arith in sym (ap (λ n. get_or xs n 0) here) ∙ r.at 0

module _ {A B : List ℕ} (tolerance_ns : ℕ) (P : PairResult → ℕ → ℕ → Type 0)
    (on_match : (r : PairResult) (i j a b : ℕ) (as' bs : List ℕ)
      → Rest A i (a ∷ as')
      → Rest B j (b ∷ bs)
      → compare_heads tolerance_ns a b ≡ match
      → P r i j
      → P (add_pair r i j a b) (i + 1) (j + 1))
    (on_older_a : (r : PairResult) (i j a b : ℕ) (as' bs : List ℕ)
      → Rest A i (a ∷ as')
      → Rest B j (b ∷ bs)
      → compare_heads tolerance_ns a b ≡ older_a
      → P r i j
      → P (skip_a r i) (i + 1) j)
    (on_older_b : (r : PairResult) (i j a b : ℕ) (as' bs : List ℕ)
      → Rest A i (a ∷ as')
      → Rest B j (b ∷ bs)
      → compare_heads tolerance_ns a b ≡ older_b
      → P r i j
      → P (skip_b r j) i (j + 1))
    (on_rest_a : (r : PairResult) (i j a : ℕ) (as' : List ℕ)
      → Rest A i (a ∷ as')
      → Rest B j []
      → P r i j
      → P (skip_a r i) (i + 1) j)
    (on_rest_b : (r : PairResult) (i j b : ℕ) (bs : List ℕ)
      → Rest A i []
      → Rest B j (b ∷ bs)
      → P r i j
      → P (skip_b r j) i (j + 1)) where
  at_end :
      {r : PairResult} {i j : ℕ} → Rest A i [] → Rest B j [] → P r i j → P r (length A) (length B)
  at_end {r} {i} {j} ra rb p =
      let end_a : i ≡ length A = omega (arith, ra.total) in
      let end_b : j ≡ length B = omega (arith, rb.total) in
      subst (λ n. P r n (length B)) end_a (subst (λ n. P r i n) end_b p)

  leftover_a_keeps :
      (r : PairResult) (i j : ℕ) (as' : List ℕ)
      → Rest A i as'
      → Rest B j []
      → P r i j
      → P (leftover_a r i as') (length A) (length B)
  unfolding leftover_a
  leftover_a_keeps r i j [] ra rb p = at_end ra rb p
  leftover_a_keeps r i j (a ∷ as') ra rb p =
      leftover_a_keeps (skip_a r i) (i + 1) j as' (Rest-next ra) rb (on_rest_a r i j a as' ra rb p)

  leftover_b_keeps :
      (r : PairResult) (i j : ℕ) (bs : List ℕ)
      → Rest A i []
      → Rest B j bs
      → P r i j
      → P (leftover_b r j bs) (length A) (length B)
  unfolding leftover_b
  leftover_b_keeps r i j [] ra rb p = at_end ra rb p
  leftover_b_keeps r i j (b ∷ bs) ra rb p =
      leftover_b_keeps (skip_b r j) i (j + 1) bs ra (Rest-next rb) (on_rest_b r i j b bs ra rb p)

  pub merge_keeps :
      (r : PairResult) (i j : ℕ) (as' bs : List ℕ)
      → Rest A i as'
      → Rest B j bs
      → P r i j
      → P (merge tolerance_ns r i j as' bs) (length A) (length B)
  unfolding merge
  merge_keeps r i j [] bs ra rb p = leftover_b_keeps r i j bs ra rb p
  merge_keeps r i j (a ∷ as') [] ra rb p = leftover_a_keeps r i j (a ∷ as') ra rb p
  merge_keeps r i j (a ∷ as') (b ∷ bs) ra rb p =
      elim (compare_heads tolerance_ns a b)
          as (λ v.
            compare_heads tolerance_ns a b ≡ v
            → P
                (elim v [
                  | match ↦ merge tolerance_ns (add_pair r i j a b) (i + 1) (j + 1) as' bs
                  | older_a ↦ merge tolerance_ns (skip_a r i) (i + 1) j as' (b ∷ bs)
                  | older_b ↦ merge tolerance_ns (skip_b r j) i (j + 1) (a ∷ as') bs
                ])
                (length A) (length B)) [
                  | match ↦ λ e.
                      merge_keeps (add_pair r i j a b) (i + 1) (j + 1) as' bs (Rest-next ra)
                        (Rest-next rb) (on_match r i j a b as' bs ra rb e p)
                  | older_a ↦ λ e.
                      merge_keeps (skip_a r i) (i + 1) j as' (b ∷ bs) (Rest-next ra) rb
                        (on_older_a r i j a b as' bs ra rb e p)
                  | older_b ↦ λ e.
                      merge_keeps (skip_b r j) i (j + 1) (a ∷ as') bs ra (Rest-next rb)
                        (on_older_b r i j a b as' bs ra rb e p)
                ]
        refl
