-- ===== src/HostFrameRing/Search.antt =====
-- The loop of `publish` that looks for a free slot.
use perception_pipeline.Prelude.{
  not, ◌&&◌, Bool-cases, ◌⊎◌, inl, inr, ℕ, zero, suc, ◌+◌, ◌≤◌, ◌<◌, ◌≡◌, ◌≢◌, refl, List, [], ◌∷◌,
  ◌==◌, leb, if◌then◌else◌, length, get_or, sum, no_slot, arith,
}
use perception_pipeline.HostFrameRing.{find_free}

-- What the search returns is free: in range, held by nobody, and not the newest.
abbrev pub Finds : ℕ → List ℕ → ℕ → ℕ → Type 0
Finds latest hs i found =
    (found ≡ no_slot)
    ⊎ ((k : ℕ) × (found ≡ i + k) × (k < length hs) × (get_or hs k 1 ≡ 0) × (i + k ≢ latest))

Finds-later :
    (latest : ℕ) (x : ℕ) (hs : List ℕ) (i found : ℕ)
    → Finds latest hs (i + 1) found
    → Finds latest (x ∷ hs) i found
Finds-later latest x hs i found (inl e) = inl e
Finds-later latest x hs i found (inr (k, e, lt, z, ne)) =
    inr (suc k, omega arith, omega arith, z, λ q. ne (omega arith))

pub find_free-Finds : (latest : ℕ) (hs : List ℕ) (i : ℕ) → Finds latest hs i (find_free latest hs i)
unfolding find_free
find_free-Finds latest [] i = inl refl
find_free-Finds latest (x ∷ hs) i = elim (Bool-cases ((x == 0) && not (i == latest))) [
  | inl here ↦ rw (here, find_free) (inr (0, omega arith, omega arith, ground arith, ground arith))
  | inr away ↦
      rw (away, find_free) (Finds-later latest x hs i _ (find_free-Finds latest hs (i + 1)))
]

-- The holds of every slot but the newest.
pub sum_except : ℕ → ℕ → List ℕ → ℕ
sum_except l i [] = 0
sum_except l i (h ∷ hs) = (if i == l then 0 else h) + sum_except l (i + 1) hs

-- If the search fails, each slot but the newest is held.
pub find_free-full :
    (l : ℕ) (hs : List ℕ) (i : ℕ)
    → i + length hs ≤ no_slot
    → find_free l hs i ≡ no_slot
    → length hs ≤ sum_except l i hs + (if leb i l then 1 else 0)
unfolding find_free sum_except
find_free-full l [] i h e = omega arith
find_free-full l (x ∷ hs) i h e = ground (arith, find_free-full l hs (i + 1))

sum_except-below : (l : ℕ) (hs : List ℕ) (i : ℕ) → l < i → sum_except l i hs ≡ sum hs
unfolding sum_except
sum_except-below l [] i h = refl
sum_except-below l (x ∷ hs) i h = ground (arith, sum_except-below l hs (i + 1))

pub sum_except_lem :
    (l : ℕ) (hs : List ℕ) (i k : ℕ) → l ≡ i + k → sum_except l i hs + get_or hs k 0 ≡ sum hs
unfolding sum_except
sum_except_lem l [] i k h = refl
sum_except_lem l (x ∷ hs) i zero h = ground (arith, sum_except-below l hs (i + 1))
sum_except_lem l (x ∷ hs) i (suc k) h = ground (arith, sum_except_lem l hs (i + 1) k)
