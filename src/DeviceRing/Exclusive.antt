-- ===== src/DeviceRing/Exclusive.antt =====
-- A leased slot is not written: what every interleaving of Seqlock keeps.
use perception_pipeline.Prelude.{
  length-set, inc64, ◌∙◌, not, Bool, List, [], arith, false, get_or, if◌then◌else◌, length, ltb,
  refl, set, suc, true, zero, ℕ, ◌+◌, ◌<◌, ◌==◌, ◌^◌, ◌∷◌, ◌≡◌, ◌≤◌,
}
use perception_pipeline.DeviceRing.{bump, Ring, slot_count, is_odd}
use perception_pipeline.DeviceRing.Seqlock.{
  verified, Writer, resting, chosen, fenced, writing, publishing, announcing, voided, Reader, idle,
  looked, saw, counted, backing, holding, World,
}

-- The slot whose seq the producer has made odd.
abbrev pub owns : Writer → ℕ → Bool
owns (fenced s) n = s == n
owns (writing s) n = s == n
owns (publishing s) n = s == n
owns (voided s) n = s == n
owns _ n = false

-- The slot that the producer holds a write lease on.
abbrev pub masters : Writer → ℕ → Bool
masters (writing s) n = s == n
masters (publishing s) n = s == n
masters (voided s) n = s == n
masters _ n = false

abbrev pub in_range : Writer → ℕ → Bool
in_range resting n = true
in_range (chosen s) n = ltb s n
in_range (fenced s) n = ltb s n
in_range (writing s) n = ltb s n
in_range (publishing s) n = ltb s n
in_range (announcing s) n = ltb s n
in_range (voided s) n = ltb s n

-- Whether a consumer counts among the readers of a slot.
abbrev pub weight : ℕ → Reader → ℕ
weight n (counted s q) = if s == n then 1 else 0
weight n (backing s) = if s == n then 1 else 0
weight n (verified s) = if s == n then 1 else 0
weight n (holding s t) = if s == n then 1 else 0
weight n _ = 0

abbrev pub holders : ℕ → List Reader → ℕ
holders n [] = 0
holders n (x ∷ xs) = weight n x + holders n xs

abbrev pub Fine : Ring → Writer → Reader → Type 0
Fine r w (saw s q) = is_odd q ≡ false
Fine r w (counted s q) = is_odd q ≡ false
Fine r w (verified s) = masters w s ≡ false
Fine r w (holding s t) = (get_or r.timestamp_ns s 0 ≡ t) × (masters w s ≡ false)
Fine r w _ = true ≡ true

pub record Safe (w : World) : Type 0 where
  pub few : length w.threads < 2 ^ 32
  pub readers_length : length w.ring.readers ≡ slot_count w.ring
  pub timestamps_length : length w.ring.timestamp_ns ≡ slot_count w.ring
  pub range : in_range w.writer (slot_count w.ring) ≡ true
  pub tally : (s : ℕ) → s < slot_count w.ring → get_or w.ring.readers s 0 ≡ holders s w.threads
  pub parity : (s : ℕ) → s < slot_count w.ring → is_odd (get_or w.ring.seq s 0) ≡ owns w.writer s
  pub fine : (i : ℕ) → Fine w.ring w.writer (get_or w.threads i idle)

pub holders-set :
    (n : ℕ) (xs : List Reader) (i : ℕ) (x : Reader)
    → i < length xs
    → holders n (set xs i x) + weight n (get_or xs i idle) ≡ holders n xs + weight n x
holders-set n [] i x h = elim h [ ]
holders-set n (y ∷ ys) zero x h = omega arith
holders-set n (y ∷ ys) (suc i) x h = omega (arith, holders-set n ys i x)

pub weight-le-1 : (n : ℕ) (x : Reader) → weight n x ≤ 1
weight-le-1 n idle = omega arith
weight-le-1 n (looked s) = omega arith
weight-le-1 n (saw s q) = omega arith
weight-le-1 n (counted s q) = ground arith
weight-le-1 n (backing s) = ground arith
weight-le-1 n (verified s) = ground arith
weight-le-1 n (holding s t) = ground arith

pub holders-le-length : (n : ℕ) (xs : List Reader) → holders n xs ≤ length xs
holders-le-length n [] = omega arith
holders-le-length n (x ∷ xs) = omega (arith, holders-le-length n xs, weight-le-1 n x)

pub weight-le-holders :
    (n : ℕ) (xs : List Reader) (i : ℕ) → weight n (get_or xs i idle) ≤ holders n xs
weight-le-holders n [] i = omega arith
weight-le-holders n (x ∷ xs) zero = omega arith
weight-le-holders n (x ∷ xs) (suc i) = omega (arith, weight-le-holders n xs i)

pub masters-owns : (w : Writer) (s : ℕ) → owns w s ≡ false → masters w s ≡ false
masters-owns resting s e = refl
masters-owns (chosen x) s e = refl
masters-owns (fenced x) s e = refl
masters-owns (writing x) s e = e
masters-owns (publishing x) s e = e
masters-owns (announcing x) s e = refl
masters-owns (voided x) s e = e

pub masters-in_range : (w : Writer) (s n : ℕ) → in_range w n ≡ true → n ≤ s → masters w s ≡ false
masters-in_range resting s n e h = refl
masters-in_range (chosen x) s n e h = refl
masters-in_range (fenced x) s n e h = refl
masters-in_range (writing x) s n e h = ground arith
masters-in_range (publishing x) s n e h = ground arith
masters-in_range (announcing x) s n e h = refl
masters-in_range (voided x) s n e h = ground arith

pub is_odd-inc64 : (x : ℕ) → is_odd (inc64 x) ≡ not (is_odd x)
is_odd-inc64 x = ground arith

pub get_or-set :
    (xs : List ℕ) (i v j : ℕ)
    → i < length xs
    → get_or (set xs i v) j 0 ≡ (if i == j then v else get_or xs j 0)
get_or-set [] i v j h = elim h [ ]
get_or-set (x ∷ xs) zero v zero h = refl
get_or-set (x ∷ xs) zero v (suc j) h = ground arith
get_or-set (x ∷ xs) (suc i) v zero h = ground arith
get_or-set (x ∷ xs) (suc i) v (suc j) h = ground (arith, get_or-set xs i v j)

-- A bump by the producer on a slot inside the ring.
pub parity-bump :
    (r : Ring) (w w' : Writer) (n : ℕ)
    → n < slot_count r
    → ((s : ℕ) → s < slot_count r → is_odd (get_or r.seq s 0) ≡ owns w s)
    → ((s : ℕ) → owns w' s ≡ (if n == s then not (owns w s) else owns w s))
    → (s : ℕ) → s < slot_count (bump r n)
    → is_odd (get_or (bump r n).seq s 0) ≡ owns w' s
parity-bump r w w' n h p o s l = ground (
  arith,
  get_or-set r.seq n (inc64 (get_or r.seq n 0)) s,
  is_odd-inc64 (get_or r.seq n 0),
  p s,
  o s,
  length-set {A = ℕ} r.seq n (inc64 (get_or r.seq n 0)),
)

-- What a step of the producer has to keep for one consumer.
pub Fine-kept :
    (r r' : Ring) (w w' : Writer) (x : Reader)
    → Fine r w x
    → ((s : ℕ)
        → weight s x ≡ 1
        → masters w s ≡ false
        → (get_or r'.timestamp_ns s 0 ≡ get_or r.timestamp_ns s 0) × (masters w' s ≡ false))
    → Fine r' w' x
Fine-kept r r' w w' idle f k = refl
Fine-kept r r' w w' (looked s) f k = refl
Fine-kept r r' w w' (saw s q) f k = f
Fine-kept r r' w w' (counted s q) f k = f
Fine-kept r r' w w' (backing s) f k = refl
Fine-kept r r' w w' (verified s) m k = (k s (ground arith) m).1
Fine-kept r r' w w' (holding s t) (e, m) k = from_both (k s (ground arith) m)
  where
    from_both :
        (get_or r'.timestamp_ns s 0 ≡ get_or r.timestamp_ns s 0) × (masters w' s ≡ false)
        → (get_or r'.timestamp_ns s 0 ≡ t) × (masters w' s ≡ false)
    from_both (e', m') = (e' ∙ e, m')
