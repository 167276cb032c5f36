-- ===== src/RingPair/Retries.antt =====
-- Which attempt a pair is made at, and that a reference frame is tried once.
use perception_pipeline.Prelude.{
  Bool, Option, ap, arith, false, none, refl, some, subst, suc, sym, true, zero, ℕ, ◌+◌, ◌<◌, ◌==◌,
  ◌∙◌, ◌≡◌, ◌≤◌,
}
use perception_pipeline.DeviceRing.Reads.{FramePeek, ReadLease}
use perception_pipeline.RingPair.{
  PairConsumer, RingAnswers, Partner, no_partner, partner, find_partner, Stepped, no_pair, pair,
  is_seen, take_reference, join, pair_reference, on_peek, pair_step,
}

-- The earliest attempt from `k` to `m` that is answered.
pub data Earliest (ask : ℕ → Option ReadLease) (k m : ℕ) : Partner → Type 0 where
  answered :
      (lease : ReadLease) (j : ℕ)
      → k ≤ j
      → j ≤ m
      → ask j ≡ some lease
      → ((i : ℕ) → k ≤ i → i < j → ask i ≡ none)
      → Earliest ask k m (partner lease j)
  unanswered : ((i : ℕ) → k ≤ i → i ≤ m → ask i ≡ none) → Earliest ask k m no_partner

from-next :
    (ask : ℕ → Option ReadLease) (k : ℕ)
    → ask k ≡ none
    → (P : ℕ → Type 0) → ((i : ℕ) → k + 1 ≤ i → P i → ask i ≡ none)
    → (i : ℕ) → k ≤ i
    → P i
    → ask i ≡ none
from-next ask k e P h i l p = by_order (k == i) refl
  where
    by_order : (b : Bool) → (k == i) ≡ b → ask i ≡ none
    by_order true f = let same : k ≡ i = ground arith in ap ask (sym same) ∙ e
    by_order false f = h i (ground arith) p

widen :
    (ask : ℕ → Option ReadLease) (k m : ℕ) (p : Partner)
    → ask k ≡ none
    → Earliest ask (k + 1) m p
    → Earliest ask k m p
widen ask k m p e (answered lease j l h f before) =
    answered lease j (omega arith) h f (from-next ask k e (λ i. i < j) before)
widen ask k m p e (unanswered before) = unanswered (from-next ask k e (λ i. i ≤ m) before)

-- The retries take the earliest attempt that is answered, of the first and `n` more, and make no pair only if
-- none of these is answered.
pub find_partner-Earliest :
    (ask : ℕ → Option ReadLease) (k n : ℕ) → Earliest ask k (k + n) (find_partner ask k n)
unfolding find_partner
find_partner-Earliest ask k zero = by_answer (ask k) refl
  where
    by_answer :
        (o : Option ReadLease)
        → ask k ≡ o
        → Earliest ask k (k + 0) (elim o [ none ↦ no_partner | some lease ↦ partner lease k ])
    by_answer none e = unanswered (λ i l h. let same : k ≡ i = omega arith in ap ask (sym same) ∙ e)
    by_answer (some lease) e =
        answered lease k (omega arith) (omega arith) e
          (λ i l h. let bad : 1 ≤ 0 = omega arith in elim bad [ ])
find_partner-Earliest ask k (suc n) = by_answer (find_partner-Earliest ask (k + 1) n) (ask k) refl
  where
    by_answer :
        Earliest ask (k + 1) (k + 1 + n) (find_partner ask (k + 1) n)
        → (o : Option ReadLease) → ask k ≡ o
        → Earliest ask k
            (k + suc n)
            (elim o [ none ↦ find_partner ask (k + 1) n | some lease ↦ partner lease k ])
    by_answer later none e =
        let same : k + 1 + n ≡ k + suc n = omega arith in
        widen ask k (k + suc n) (find_partner ask (k + 1) n) e
          (subst (λ m. Earliest ask (k + 1) m (find_partner ask (k + 1) n)) same later)
    by_answer later (some lease) e =
        answered lease k (omega arith) (omega arith) e
          (λ i l h. let bad : 1 ≤ 0 = omega arith in elim bad [ ])

abbrev pub consumer_after : Stepped → PairConsumer
consumer_after (no_pair c) = c
consumer_after (pair a b s n c) = c

join-is_seen :
    (c : PairConsumer) (lease : ReadLease) (published : ℕ) (m : Partner) (q : FramePeek)
    → q.slot ≡ lease.slot
    → q.slot_seq ≡ lease.seq
    → is_seen (consumer_after (join (take_reference c lease published) lease m)) q ≡ true
join-is_seen c lease published no_partner q es eq = ground arith
join-is_seen c lease published (partner other k) q es eq = ground arith

-- A step that leased a reference frame, paired or not, is followed by no step on the same frame: while the
-- reference ring still shows that slot and seq, a step makes no pair and changes nothing.
pub pair_step-again :
    (c : PairConsumer) (a later : RingAnswers) (p q : FramePeek) (lease : ReadLease)
    → a.peek ≡ some p
    → is_seen c p ≡ false
    → a.reference ≡ some lease
    → later.peek ≡ some q
    → q.slot ≡ lease.slot
    → q.slot_seq ≡ lease.seq
    → pair_step (consumer_after (pair_step c a)) later ≡ no_pair (consumer_after (pair_step c a))
unfolding pair_step pair_reference
pair_step-again c a later p q lease e new r e' es eq =
    let m =
      find_partner (a.partner_at lease.timestamp_ns c.config.tolerance_ns) 0
        c.config.retry_attempts in
    let joined : Stepped = join (take_reference c lease a.published) lease m in
    let looked : on_peek c a (some p) ≡ pair_reference c a a.reference = rw new refl in
    let first : pair_step c a ≡ joined =
      ap (on_peek c a) e ∙ (looked ∙ ap (pair_reference c a) r) in
    let seen = join-is_seen c lease a.published m q es eq in
    let passed : on_peek (consumer_after joined) later (some q) ≡ no_pair (consumer_after joined) =
      rw seen refl in
    subst (λ s. pair_step (consumer_after s) later ≡ no_pair (consumer_after s)) (sym first)
      (ap (on_peek (consumer_after joined) later) e' ∙ passed)
