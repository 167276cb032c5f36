-- ===== src/DeviceRing/Producer.antt =====
-- Every step of the producer keeps `Safe`.
use perception_pipeline.Prelude.{
  ltb, inc64, no_timestamp, Bool, ap, arith, false, get_or, get_or-set_ne, if◌then◌else◌,
  length-set, not, refl, subst, sym, true, ℕ, ◌<◌, ◌==◌, ◌∙◌, ◌≡◌, ◌≢◌, ◌≤◌,
}
use perception_pipeline.DeviceRing.{slot_count, bump, store_stamp, announce}
use perception_pipeline.DeviceRing.Seqlock.{
  voided, publishing, writer_publishes, writer_advances, writer_abandons, chooses_slot, passes,
  Writer, resting, chosen, fenced, writing, announcing, idle, World, go,
}
use perception_pipeline.DeviceRing.Exclusive.{
  owns, masters, in_range, weight, Safe, weight-le-holders, parity-bump, Fine-kept,
}

unowned-owns : (n s : ℕ) → (n == s) ≡ (if n == s then not false else false)
unowned-owns n s = ground arith

owned-free : (n s : ℕ) → false ≡ (if n == s then not (n == s) else n == s)
owned-free n s = ground arith

choose-Safe :
    (w : World) (s : ℕ)
    → Safe w
    → w.writer ≡ resting
    → s < slot_count w.ring
    → Safe (go w w.ring (chosen s))
choose-Safe w s k e h = record {
  few = k.few;
  readers_length = k.readers_length;
  timestamps_length = k.timestamps_length;
  range = ground arith;
  tally = k.tally;
  parity = λ n l. k.parity n l ∙ ap (λ x. owns x n) e;
  fine = λ i. Fine-kept w.ring w.ring w.writer (chosen s) _ (k.fine i) (λ n _ _. (refl, refl));
}

-- A bump that makes the seq of the chosen slot odd, or one that ends the producer's hold.
bump-Safe :
    (w : World) (n : ℕ) (x : Writer)
    → Safe w
    → n < slot_count w.ring
    → in_range x (slot_count w.ring) ≡ true
    → ((s : ℕ) → owns x s ≡ (if n == s then not (owns w.writer s) else owns w.writer s))
    → ((s : ℕ) → masters x s ≡ false)
    → Safe (go w (bump w.ring n) x)
bump-Safe w n x k h r o m =
    let same : slot_count (bump w.ring n) ≡ slot_count w.ring = length-set {A = ℕ} w.ring.seq n _ in
    record {
      few = k.few;
      readers_length = k.readers_length ∙ sym same;
      timestamps_length = k.timestamps_length ∙ sym same;
      range = subst (λ c. in_range x c ≡ true) (sym same) r;
      tally = λ s l. k.tally s (omega arith);
      parity = parity-bump w.ring w.writer x n h k.parity o;
      fine = λ i. Fine-kept w.ring (bump w.ring n) w.writer x _ (k.fine i) (λ s _ _. (refl, m s));
    }

-- The producer gets the slot, as nobody counts among its readers.
write-Safe :
    (w : World) (n : ℕ)
    → Safe w
    → w.writer ≡ fenced n
    → n < slot_count w.ring
    → get_or w.ring.readers n 0 ≡ 0
    → Safe (go w w.ring (writing n))
write-Safe w n k e h z = record {
  few = k.few;
  readers_length = k.readers_length;
  timestamps_length = k.timestamps_length;
  range = ground arith;
  tally = k.tally;
  parity = λ s l. k.parity s l ∙ ap (λ x. owns x s) e;
  fine = λ i.
      Fine-kept w.ring w.ring w.writer (writing n) (get_or w.threads i idle) (k.fine i)
        (λ s one _. (refl, elsewhere i s one));
}
  where
    elsewhere : (i s : ℕ) → weight s (get_or w.threads i idle) ≡ 1 → (n == s) ≡ false
    elsewhere i s one = by_slot (n == s) refl
      where
        by_slot : (b : Bool) → (n == s) ≡ b → (n == s) ≡ false
        by_slot false f = f
        by_slot true f =
            let here : n ≡ s = ground arith in
            let counts = ap (λ m. weight m (get_or w.threads i idle)) here in
            let bad : 1 ≤ 0 = omega (arith, weight-le-holders n w.threads i, k.tally n h) in
            elim bad [ ]

-- The stores to timestamp_ns while the producer holds the slot.
stamp-Safe :
    (w : World) (n t : ℕ) (x : Writer)
    → Safe w
    → in_range x (slot_count w.ring) ≡ true
    → ((s : ℕ) → owns x s ≡ owns w.writer s)
    → ((s : ℕ) → masters x s ≡ masters w.writer s)
    → ((s : ℕ) → masters w.writer s ≡ (n == s))
    → Safe (go w (store_stamp w.ring n t) x)
stamp-Safe w n t x k r o m here = record {
  few = k.few;
  readers_length = k.readers_length;
  timestamps_length = length-set {A = ℕ} w.ring.timestamp_ns n t ∙ k.timestamps_length;
  range = r;
  tally = k.tally;
  parity = λ s l. k.parity s l ∙ sym (o s);
  fine = λ i. Fine-kept w.ring (store_stamp w.ring n t) w.writer x _ (k.fine i) (λ s _ free.
      (get_or-set_ne w.ring.timestamp_ns n s t 0 (apart s (sym (here s) ∙ free)), m s ∙ free));
}
  where
    apart : (s : ℕ) → (n == s) ≡ false → n ≢ s
    apart s f e = ground arith

announce-Safe :
    (w : World) (n : ℕ) → Safe w → w.writer ≡ announcing n → Safe (go w (announce w.ring n) resting)
announce-Safe w n k e = record {
  few = k.few;
  readers_length = k.readers_length;
  timestamps_length = k.timestamps_length;
  range = refl;
  tally = k.tally;
  parity = λ s l. k.parity s l ∙ ap (λ x. owns x s) e;
  fine = λ i.
      Fine-kept w.ring (announce w.ring n) w.writer resting _ (k.fine i) (λ s _ _. (refl, refl));
}

range-of : (w : World) (x : Writer) → Safe w → w.writer ≡ x → in_range x (slot_count w.ring) ≡ true
range-of w x k e = ap (λ y. in_range y (slot_count w.ring)) (sym e) ∙ k.range

pub chooses-Safe :
    (w : World) (x : Writer) (s : ℕ) → w.writer ≡ x → Safe w → Safe (chooses_slot w x s)
chooses-Safe w resting s e k =
    elim (ltb s (slot_count w.ring))
        as (λ b. ltb s (slot_count w.ring) ≡ b → Safe (if b then go w w.ring (chosen s) else w)) [
          | true ↦ λ h. choose-Safe w s k e (ground arith)
          | false ↦ λ _. k
        ]
      refl
chooses-Safe w (chosen n) s e k = k
chooses-Safe w (fenced n) s e k = k
chooses-Safe w (writing n) s e k = k
chooses-Safe w (publishing n) s e k = k
chooses-Safe w (announcing n) s e k = k
chooses-Safe w (voided n) s e k = k

passes-Safe :
    (w : World) (n : ℕ) (blocking : Bool)
    → w.writer ≡ fenced n
    → n < slot_count w.ring
    → Safe w
    → Safe (passes w n blocking)
passes-Safe w n blocking e h k = by_readers (get_or w.ring.readers n 0 == 0) refl blocking
  where
    given_up : Safe (go w (bump w.ring n) resting)
    given_up =
        bump-Safe w n resting k h refl
          (λ s. owned-free n s ∙ ap (λ x. if n == s then not (owns x s) else owns x s) (sym e))
          (λ s. refl)

    by_readers :
        (b : Bool)
        → (get_or w.ring.readers n 0 == 0) ≡ b
        → (blocking : Bool)
        → Safe (
            if b
            then go w w.ring (writing n)
            else if blocking
            then w
            else (let back = bump w.ring n in
                go w (record back { write_drops = inc64 w.ring.write_drops }) resting))
    by_readers true f blocking' = write-Safe w n k e h (ground arith)
    by_readers false f true = k
    by_readers false f false = record {
      few = given_up.few;
      readers_length = given_up.readers_length;
      timestamps_length = given_up.timestamps_length;
      range = refl;
      tally = given_up.tally;
      parity = given_up.parity;
      fine = λ i.
          Fine-kept (bump w.ring n) (bump w.ring n) resting resting _ (given_up.fine i)
            (λ s _ _. (refl, refl));
    }

pub advances-Safe :
    (w : World) (x : Writer) (b : Bool) → w.writer ≡ x → Safe w → Safe (writer_advances w x b)
advances-Safe w resting b e k = k
advances-Safe w (chosen n) b e k =
    bump-Safe w n (fenced n) k (ground (arith, range-of w (chosen n) k e))
      (range-of w (chosen n) k e)
      (λ s. unowned-owns n s ∙ ap (λ x. if n == s then not (owns x s) else owns x s) (sym e))
      (λ s. refl)
advances-Safe w (fenced n) b e k = passes-Safe w n b e (ground (arith, range-of w (fenced n) k e)) k
advances-Safe w (writing n) b e k = k
advances-Safe w (publishing n) b e k =
    bump-Safe w n (announcing n) k (ground (arith, range-of w (publishing n) k e))
      (range-of w (publishing n) k e)
      (λ s. owned-free n s ∙ ap (λ x. if n == s then not (owns x s) else owns x s) (sym e))
      (λ s. refl)
advances-Safe w (announcing n) b e k = announce-Safe w n k e
advances-Safe w (voided n) b e k =
    bump-Safe w n resting k (ground (arith, range-of w (voided n) k e)) refl
      (λ s. owned-free n s ∙ ap (λ x. if n == s then not (owns x s) else owns x s) (sym e))
      (λ s. refl)

pub publishes-Safe :
    (w : World) (x : Writer) (t : ℕ) → w.writer ≡ x → Safe w → Safe (writer_publishes w x t)
publishes-Safe w resting t e k = k
publishes-Safe w (chosen n) t e k = k
publishes-Safe w (fenced n) t e k = k
publishes-Safe w (writing n) t e k =
    stamp-Safe w n t (publishing n) k (range-of w (writing n) k e) (λ s. ap (λ x. owns x s) (sym e))
      (λ s. ap (λ x. masters x s) (sym e)) (λ s. ap (λ x. masters x s) e)
publishes-Safe w (publishing n) t e k = k
publishes-Safe w (announcing n) t e k = k
publishes-Safe w (voided n) t e k = k

pub abandons-Safe : (w : World) (x : Writer) → w.writer ≡ x → Safe w → Safe (writer_abandons w x)
abandons-Safe w resting e k = k
abandons-Safe w (chosen n) e k = k
abandons-Safe w (fenced n) e k = k
abandons-Safe w (writing n) e k =
    stamp-Safe w n no_timestamp (voided n) k (range-of w (writing n) k e)
      (λ s. ap (λ x. owns x s) (sym e)) (λ s. ap (λ x. masters x s) (sym e))
      (λ s. ap (λ x. masters x s) e)
abandons-Safe w (publishing n) e k = k
abandons-Safe w (announcing n) e k = k
abandons-Safe w (voided n) e k = k
