-- ===== src/Recording/Pairs.antt =====
-- RecordingReader::pair: the streams of a recording, paired by their entries' timestamps.
use perception_pipeline.FramePairing.Partition.{pair_by_timestamp-Books, Books}
use perception_pipeline.FramePairing.Regression.{first_timestamp_regression-Finds}
use perception_pipeline.Recording.{IndexRecord}
use perception_pipeline.FramePairing.{pair_by_timestamp, PairResult, first_timestamp_regression}
use perception_pipeline.Prelude.{
  List, [], ap, arith, false, get_or, if◌then◌else◌, length, ltb, refl, subst, suc, true, ℕ, ◌+◌,
  ◌-◌, ◌<◌, ◌∷◌, ◌≡◌, ◌≢◌, ◌≤◌,
}

-- The two exceptions, and the result.
pub data Pairing : Type 0 where
  not_two_streams : Pairing
  goes_backwards : ℕ → ℕ → Pairing
  paired : PairResult → Pairing

abbrev pub timestamps_of : List IndexRecord → List ℕ
timestamps_of [] = []
timestamps_of (r ∷ rs) = r.timestamp_ns ∷ timestamps_of rs

-- The loop over the streams from stream `s` on; `fine` is what comes behind it.
abbrev pub check_streams : ℕ → List (List ℕ) → Pairing → Pairing
check_streams s [] fine = fine
check_streams s (ts ∷ streams) fine =
    let at = first_timestamp_regression ts in
    let rest = check_streams (s + 1) streams fine in
    if ltb at (length ts) then goes_backwards s at else rest

unfoldable pub pair : List (List IndexRecord) → ℕ → Pairing
unfolding first_timestamp_regression pair_by_timestamp
pair [] tolerance_ns = not_two_streams
pair (a ∷ []) tolerance_ns = not_two_streams
pair (a ∷ b ∷ []) tolerance_ns =
    let as' = timestamps_of a in
    let bs = timestamps_of b in
    check_streams 0 (as' ∷ bs ∷ []) (paired (pair_by_timestamp as' bs tolerance_ns))
pair (a ∷ b ∷ c ∷ more) tolerance_ns = not_two_streams

-- No timestamp is before the one in front of it.
pub record Ascends (ts : List ℕ) : Type 0 where
  pub ascends : (k : ℕ) → k + 1 < length ts → get_or ts k 0 ≤ get_or ts (k + 1) 0

-- The first timestamp that is before the one in front of it.
pub record Falls (ts : List ℕ) (at : ℕ) : Type 0 where
  pub inside : (1 ≤ at) × (at < length ts)
  pub falls : get_or ts at 0 < get_or ts (at - 1) 0
  pub ascends : (k : ℕ) → k + 1 < at → get_or ts k 0 ≤ get_or ts (k + 1) 0

-- What pair answers for the entries of the streams.
pub data Answers (tolerance_ns : ℕ) : List (List IndexRecord) → Pairing → Type 0 where
  uneven :
      {streams : List (List IndexRecord)}
      → length streams ≢ 2
      → Answers tolerance_ns streams not_two_streams
  first_falls :
      {a b : List IndexRecord} {at : ℕ}
      → Falls (timestamps_of a) at
      → Answers tolerance_ns (a ∷ b ∷ []) (goes_backwards 0 at)
  second_falls :
      {a b : List IndexRecord} {at : ℕ}
      → Ascends (timestamps_of a)
      → Falls (timestamps_of b) at
      → Answers tolerance_ns (a ∷ b ∷ []) (goes_backwards 1 at)
  pairs :
      {a b : List IndexRecord} {r : PairResult}
      → Ascends (timestamps_of a)
      → Ascends (timestamps_of b)
      → r ≡ pair_by_timestamp (timestamps_of a) (timestamps_of b) tolerance_ns
      → Books r (length a) (length b)
      → Answers tolerance_ns (a ∷ b ∷ []) (paired r)

length-timestamps_of : (rs : List IndexRecord) → length (timestamps_of rs) ≡ length rs
length-timestamps_of [] = refl
length-timestamps_of (r ∷ rs) = ap suc (length-timestamps_of rs)

ends_in_order : (ts : List ℕ) → ltb (first_timestamp_regression ts) (length ts) ≡ false → Ascends ts
ends_in_order ts e =
    let f = first_timestamp_regression-Finds ts in
    let all : first_timestamp_regression ts ≡ length ts = ground (arith, e, f.inside) in
    record { ascends = λ k h. f.ordered k (omega (arith, h, all)) }

ends_early :
    (ts : List ℕ)
    → ltb (first_timestamp_regression ts) (length ts) ≡ true
    → Falls ts (first_timestamp_regression ts)
ends_early ts e =
    let f = first_timestamp_regression-Finds ts in
    let short : first_timestamp_regression ts < length ts = ground (arith, e) in
    let (one, back) = f.regresses short in
    record { inside = (one, short); falls = back; ascends = f.ordered }

-- For any entries of any streams, pair answers that there are not two streams exactly if there are not,
-- else the first stream whose timestamps go backwards with the first place where they do, and, when both
-- streams' timestamps never go backwards, the merge of the two, which accounts for each
-- of the streams' frames once.
pub pair-Answers :
    (streams : List (List IndexRecord)) (tolerance_ns : ℕ)
    → Answers tolerance_ns streams (pair streams tolerance_ns)
unfolding pair
pair-Answers [] tol = uneven (λ e. absurd (omega (arith, e)))
pair-Answers (a ∷ []) tol = uneven (λ e. absurd (omega (arith, e)))
pair-Answers (a ∷ b ∷ c ∷ more) tol = uneven (λ e. absurd (omega (arith, e)))
pair-Answers (a ∷ b ∷ []) tol =
    let as' = timestamps_of a in
    let bs = timestamps_of b in
    let r = pair_by_timestamp as' bs tol in
    let books : Books r (length a) (length b) =
      subst (λ n. Books r n (length b)) (length-timestamps_of a)
        (subst (λ n. Books r (length as') n) (length-timestamps_of b)
          (pair_by_timestamp-Books as' bs tol)) in
    elim (ltb (first_timestamp_regression as') (length as'))
        as (λ t.
          ltb (first_timestamp_regression as') (length as') ≡ t
          → Answers tol (a ∷ b ∷ []) (
              if t
              then goes_backwards 0 (first_timestamp_regression as')
              else check_streams 1 (bs ∷ []) (paired r))) [
                | true ↦ λ e. first_falls (ends_early as' e)
                | false ↦ λ e.
                    elim (ltb (first_timestamp_regression bs) (length bs))
                        as (λ t.
                          ltb (first_timestamp_regression bs) (length bs) ≡ t
                          → Answers tol (a ∷ b ∷ []) (
                              if t
                              then goes_backwards 1 (first_timestamp_regression bs)
                              else paired r)) [
                                | true ↦ λ f. second_falls (ends_in_order as' e) (ends_early bs f)
                                | false ↦
                                    λ f. pairs (ends_in_order as' e) (ends_in_order bs f) refl books
                              ]
                      refl
              ]
      refl
