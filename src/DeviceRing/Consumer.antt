-- ===== src/DeviceRing/Consumer.antt =====
-- Every step of a consumer keeps `Safe`.
use perception_pipeline.Prelude.{
  Bool, List, [], ap, arith, dec32, false, get_or, if◌then◌else◌, inc32, length, length-set, ltb,
  no_slot, refl, set, subst, suc, sym, true, zero, ℕ, ◌<◌, ◌==◌, ◌^◌, ◌∙◌, ◌∷◌, ◌≡◌,
}
use perception_pipeline.DeviceRing.{slot_count, is_odd, count_in, count_out}
use perception_pipeline.DeviceRing.Seqlock.{
  verified, Reader, idle, looked, saw, counted, backing, holding, World, become, reader_finds,
  reader_moves, reader_drops,
}
use perception_pipeline.DeviceRing.Exclusive.{
  masters, weight, holders, Fine, Safe, holders-set, holders-le-length, masters-owns,
  masters-in_range,
}

get_or-set_thread :
    (P : Reader → Type 0) (xs : List Reader) (i j : ℕ) (x : Reader)
    → i < length xs
    → P x
    → P (get_or xs j idle)
    → P (get_or (set xs i x) j idle)
get_or-set_thread P [] i j x h p q = elim h [ ]
get_or-set_thread P (y ∷ ys) zero zero x h p q = p
get_or-set_thread P (y ∷ ys) zero (suc j) x h p q = q
get_or-set_thread P (y ∷ ys) (suc i) zero x h p q = q
get_or-set_thread P (y ∷ ys) (suc i) (suc j) x h p q =
    get_or-set_thread P ys i j x (omega arith) p q

-- A step that leaves the counts of the readers as they are.
become-Safe :
    (w : World) (i : ℕ) (x : Reader)
    → Safe w
    → i < length w.threads
    → ((s : ℕ) → weight s x ≡ weight s (get_or w.threads i idle))
    → Fine w.ring w.writer x
    → Safe (become w w.ring i x)
become-Safe w i x k h same f = record {
  few = omega (arith, k.few, length-set {A = Reader} w.threads i x);
  readers_length = k.readers_length;
  timestamps_length = k.timestamps_length;
  range = k.range;
  tally = λ s l. omega (arith, k.tally s l, same s, holders-set s w.threads i x h);
  parity = k.parity;
  fine = λ j. get_or-set_thread (Fine w.ring w.writer) w.threads i j x h f (k.fine j);
}

get_or-set_inside :
    (xs : List ℕ) (i v j : ℕ)
    → j < length xs
    → get_or (set xs i v) j 0 ≡ (if i == j then v else get_or xs j 0)
get_or-set_inside [] i v j h = elim h [ ]
get_or-set_inside (x ∷ xs) zero v zero h = refl
get_or-set_inside (x ∷ xs) zero v (suc j) h = ground arith
get_or-set_inside (x ∷ xs) (suc i) v zero h = ground arith
get_or-set_inside (x ∷ xs) (suc i) v (suc j) h = ground (arith, get_or-set_inside xs i v j)

-- What the tally says of a slot after a step of thread `i` to `x`.
tally-in :
    (rs : List ℕ) (ts : List Reader) (i n s : ℕ) (x : Reader)
    → s < length rs
    → i < length ts
    → length ts < 2 ^ 32
    → get_or rs s 0 ≡ holders s ts
    → weight s x ≡ (if n == s then 1 else 0)
    → weight s (get_or ts i idle) ≡ 0
    → get_or (set rs n (inc32 (get_or rs n 0))) s 0 ≡ holders s (set ts i x)
tally-in rs ts i n s x hs hi few t one none' = by_slot (n == s) refl
  where
    by_slot :
        (b : Bool)
        → (n == s) ≡ b
        → get_or (set rs n (inc32 (get_or rs n 0))) s 0 ≡ holders s (set ts i x)
    by_slot true e =
        let same : n ≡ s = ground arith in
        let here : get_or rs n 0 ≡ get_or rs s 0 = ap (λ m. get_or rs m 0) same in
        ground (
          arith,
          get_or-set_inside rs n (inc32 (get_or rs n 0)) s hs,
          holders-set s ts i x hi,
          holders-le-length s ts,
          holders-le-length s (set ts i x),
          length-set {A = Reader} ts i x,
        )
    by_slot false e =
        ground (arith, get_or-set_inside rs n (inc32 (get_or rs n 0)) s hs, holders-set s ts i x hi)

tally-out :
    (rs : List ℕ) (ts : List Reader) (i n s : ℕ) (x : Reader)
    → s < length rs
    → i < length ts
    → length ts < 2 ^ 32
    → get_or rs s 0 ≡ holders s ts
    → weight s x ≡ 0
    → weight s (get_or ts i idle) ≡ (if n == s then 1 else 0)
    → get_or (set rs n (dec32 (get_or rs n 0))) s 0 ≡ holders s (set ts i x)
tally-out rs ts i n s x hs hi few t none' one = by_slot (n == s) refl
  where
    by_slot :
        (b : Bool)
        → (n == s) ≡ b
        → get_or (set rs n (dec32 (get_or rs n 0))) s 0 ≡ holders s (set ts i x)
    by_slot true e =
        let same : n ≡ s = ground arith in
        let here : get_or rs n 0 ≡ get_or rs s 0 = ap (λ m. get_or rs m 0) same in
        ground (
          arith,
          get_or-set_inside rs n (dec32 (get_or rs n 0)) s hs,
          holders-set s ts i x hi,
          holders-le-length s ts,
        )
    by_slot false e =
        ground (arith, get_or-set_inside rs n (dec32 (get_or rs n 0)) s hs, holders-set s ts i x hi)

-- A step that counts in.
count_in-Safe :
    (w : World) (i n : ℕ) (x : Reader)
    → Safe w
    → i < length w.threads
    → ((s : ℕ) → weight s x ≡ (if n == s then 1 else 0))
    → ((s : ℕ) → weight s (get_or w.threads i idle) ≡ 0)
    → Fine w.ring w.writer x
    → Safe (become w (count_in w.ring n) i x)
count_in-Safe w i n x k h one none' f = record {
  few = omega (arith, k.few, length-set {A = Reader} w.threads i x);
  readers_length = length-set {A = ℕ} w.ring.readers n _ ∙ k.readers_length;
  timestamps_length = k.timestamps_length;
  range = k.range;
  tally = λ s l.
      tally-in w.ring.readers w.threads i n s x (omega (arith, k.readers_length)) h k.few
        (k.tally s l) (one s) (none' s);
  parity = k.parity;
  fine = λ j. get_or-set_thread (Fine w.ring w.writer) w.threads i j x h f (k.fine j);
}

-- A step that counts out.
count_out-Safe :
    (w : World) (i n : ℕ) (x : Reader)
    → Safe w
    → i < length w.threads
    → ((s : ℕ) → weight s x ≡ 0)
    → ((s : ℕ) → weight s (get_or w.threads i idle) ≡ (if n == s then 1 else 0))
    → Fine w.ring w.writer x
    → Safe (become w (count_out w.ring n) i x)
count_out-Safe w i n x k h none' one f = record {
  few = omega (arith, k.few, length-set {A = Reader} w.threads i x);
  readers_length = length-set {A = ℕ} w.ring.readers n _ ∙ k.readers_length;
  timestamps_length = k.timestamps_length;
  range = k.range;
  tally = λ s l.
      tally-out w.ring.readers w.threads i n s x (omega (arith, k.readers_length)) h k.few
        (k.tally s l) (none' s) (one s);
  parity = k.parity;
  fine = λ j. get_or-set_thread (Fine w.ring w.writer) w.threads i j x h f (k.fine j);
}

module _ (w : World) (i : ℕ) (k : Safe w) (h : i < length w.threads) where
  was :
      (x : Reader)
      → get_or w.threads i idle ≡ x
      → (s : ℕ) → weight s x ≡ weight s (get_or w.threads i idle)
  was x e s = ap (weight s) (sym e)

  pub finds-Safe :
      (x : Reader) (s q : ℕ) → get_or w.threads i idle ≡ x → Safe (reader_finds w i x s q)
  finds-Safe idle s q e =
      elim (is_odd q) as (λ b. is_odd q ≡ b → Safe (if b then w else become w w.ring i (saw s q))) [
        | true ↦ λ _. k
        | false ↦ λ even. become-Safe w i (saw s q) k h (was idle e) even
      ]
        refl
  finds-Safe (looked s') s q e = k
  finds-Safe (saw s' q') s q e = k
  finds-Safe (counted s' q') s q e = k
  finds-Safe (backing s') s q e = k
  finds-Safe (verified s') s q e = k
  finds-Safe (holding s' t) s q e = k

  -- An even seq, seen after counting in: the producer does not hold the slot.
  confirmed : (s q : ℕ) → is_odd q ≡ false → get_or w.ring.seq s 0 ≡ q → masters w.writer s ≡ false
  confirmed s q even e = by_range (ltb s (slot_count w.ring)) refl
    where
      by_range : (b : Bool) → ltb s (slot_count w.ring) ≡ b → masters w.writer s ≡ false
      by_range true l =
          masters-owns w.writer s (sym (k.parity s (ground arith)) ∙ (ap is_odd e ∙ even))
      by_range false l = masters-in_range w.writer s (slot_count w.ring) k.range (ground arith)

  pub moves-Safe : (x : Reader) → get_or w.threads i idle ≡ x → Safe (reader_moves w i x)
  moves-Safe idle e =
      elim (w.ring.latest == no_slot)
        as (λ b. Safe (if b then w else become w w.ring i (looked w.ring.latest))) [
          | true ↦ k
          | false ↦ become-Safe w i (looked w.ring.latest) k h (was idle e) refl
        ]
  moves-Safe (looked s) e =
      elim (is_odd (get_or w.ring.seq s 0))
          as (λ b.
            is_odd (get_or w.ring.seq s 0) ≡ b
            → Safe (
                if b
                then become w w.ring i idle
                else become w w.ring i (saw s (get_or w.ring.seq s 0)))) [
                  | true ↦ λ _. become-Safe w i idle k h (was (looked s) e) refl
                  | false ↦ λ even.
                      become-Safe w i (saw s (get_or w.ring.seq s 0)) k h (was (looked s) e) even
                ]
        refl
  moves-Safe (saw s q) e =
      count_in-Safe w i s (counted s q) k h (λ n. refl) (λ n. ap (weight n) e)
        (subst (λ y. Fine w.ring w.writer y) e (k.fine i))
  moves-Safe (counted s q) e =
      elim (get_or w.ring.seq s 0 == q)
          as (λ b.
            (get_or w.ring.seq s 0 == q) ≡ b
            → Safe (if b then become w w.ring i (verified s) else become w w.ring i (backing s))) [
              | true ↦ λ same.
                  become-Safe w i (verified s) k h (was (counted s q) e) (
                    confirmed s q (subst (λ y. Fine w.ring w.writer y) e (k.fine i)) (ground arith))
              | false ↦ λ _. become-Safe w i (backing s) k h (was (counted s q) e) refl
            ]
        refl
  moves-Safe (backing s) e = count_out-Safe w i s idle k h (λ n. refl) (λ n. ap (weight n) e) refl
  moves-Safe (verified s) e =
      become-Safe w i (holding s (get_or w.ring.timestamp_ns s 0)) k h (was (verified s) e)
        (refl, subst (λ y. Fine w.ring w.writer y) e (k.fine i))
  moves-Safe (holding s t) e = k

  pub drops-Safe : (x : Reader) → get_or w.threads i idle ≡ x → Safe (reader_drops w i x)
  drops-Safe idle e = k
  drops-Safe (looked s) e = k
  drops-Safe (saw s q) e = k
  drops-Safe (counted s q) e = k
  drops-Safe (backing s) e = k
  drops-Safe (verified s) e = k
  drops-Safe (holding s t) e = count_out-Safe w i s idle k h (λ n. refl) (λ n. ap (weight n) e) refl
