-- ===== src/HostFrameRing/Invariant.antt =====
-- What the slot bookkeeping of pipeline/src/host_frame_ring.cpp means: `holds` counts the live
-- handles and the copy in progress, `in_use` counts the slots that are not free, and the slot being
-- copied into is neither the newest nor in a reader's hands.
use perception_pipeline.Prelude.{
  count_nonzero-le-length, List, Option, [], arith, count, count_nonzero, count_nonzero-replicate,
  get_or, get_or-replicate, if◌then◌else◌, inl, length, length-replicate, no_slot, none, refl,
  replicate, some, suc, sum, sum-replicate, sym, zero, ℕ, ◌+◌, ◌<◌, ◌==◌, ◌∙◌, ◌∷◌, ◌≡◌, ◌≢◌, ◌≤◌,
  ◌⊎◌,
}
use perception_pipeline.HostFrameRing.World.{World}
use perception_pipeline.HostFrameRing.{fresh, [], ℕ, Option, length, none, Ring, blank, create}

abbrev pub copies_at : Option ℕ → ℕ → ℕ
copies_at none i = 0
copies_at (some s) i = if s == i then 1 else 0

abbrev pub copies : Option ℕ → ℕ
copies none = 0
copies (some s) = 1

-- The slot of a copy in progress is in range, is not the newest, and no handle names it.
abbrev pub CopyApart : Option ℕ → ℕ → List ℕ → List ℕ → Type 0
CopyApart none latest holds held = Unit {0}
CopyApart (some s) latest holds held = (s < length holds) × (s ≢ latest) × (count s held ≡ 0)

-- Nothing is published yet, or the newest slot is in range and holds the newest frame.
abbrev pub HasNewest : Ring → Type 0
HasNewest r =
    ((r.latest ≡ no_slot) × (r.latest_seq ≡ 0))
    ⊎ ((r.latest < length r.holds) × ((get_or r.frames r.latest (blank 0)).sequence ≡ r.latest_seq))

-- 1 if the newest frame is in nobody's hands.
abbrev pub kept_only_as_newest : Ring → ℕ
kept_only_as_newest r = if get_or r.holds r.latest 1 == 0 then 1 else 0

pub record IsValid (w : World) : Type 0 where
  pub shape : length w.ring.holds ≡ length w.ring.frames
  pub small : length w.ring.holds ≤ no_slot
  pub tally : (i : ℕ) → get_or w.ring.holds i 0 ≡ count i w.held + copies_at w.pending i
  pub total : sum w.ring.holds ≡ length w.held + copies w.pending
  pub busy : w.ring.in_use ≡ count_nonzero w.ring.holds + kept_only_as_newest w.ring
  pub newest : HasNewest w.ring
  pub apart : CopyApart w.pending w.ring.latest w.ring.holds w.held

abbrev pub opened : Ring → World
opened r = record { ring = r; pending = none; held = [] }

create-eq_fresh :
    (slots frame_bytes : ℕ) {r : Ring}
    → create slots frame_bytes ≡ some r
    → (2 ≤ slots) × (r ≡ fresh slots frame_bytes)
unfolding create
create-eq_fresh slots frame_bytes e = (ground arith, ground arith)

pub get_or-beyond : (xs : List ℕ) (i d : ℕ) → length xs ≤ i → get_or xs i d ≡ d
get_or-beyond [] i d h = refl
get_or-beyond (x ∷ xs) zero d h = absurd (omega arith)
get_or-beyond (x ∷ xs) (suc i) d h = get_or-beyond xs i d (omega arith)

-- What is not zero is in range.
pub get_or-in_range : (xs : List ℕ) (i : ℕ) → 1 ≤ get_or xs i 0 → i < length xs
get_or-in_range [] i h = elim h [ ]
get_or-in_range (x ∷ xs) zero h = omega arith
get_or-in_range (x ∷ xs) (suc i) h = omega (arith, get_or-in_range xs i h)

-- In range the default is not read.
pub get_or-default : (xs : List ℕ) (i d e : ℕ) → i < length xs → get_or xs i d ≡ get_or xs i e
get_or-default [] i d e h = elim h [ ]
get_or-default (x ∷ xs) zero d e h = refl
get_or-default (x ∷ xs) (suc i) d e h = get_or-default xs i d e (omega arith)

-- No more slots are in use than there are.
pub used-le-length :
    (xs : List ℕ) (l : ℕ) → count_nonzero xs + (if get_or xs l 1 == 0 then 1 else 0) ≤ length xs
used-le-length [] l = omega arith
used-le-length (x ∷ xs) zero = ground (arith, count_nonzero-le-length xs)
used-le-length (x ∷ xs) (suc l) = ground (arith, used-le-length xs l)

length-zeros : (n : ℕ) → length {A = ℕ} (replicate n 0) ≡ n
length-zeros n = length-replicate n 0

fresh-IsValid :
    (slots frame_bytes : ℕ) → slots ≤ no_slot → IsValid (opened (fresh slots frame_bytes))
fresh-IsValid slots frame_bytes h = record {
  shape = length-zeros slots ∙ sym (length-replicate slots (blank frame_bytes));
  small = omega (arith, length-zeros slots);
  tally = λ i. get_or-replicate slots i;
  total = sum-replicate slots;
  busy = ground (
    arith,
    count_nonzero-replicate slots,
    get_or-beyond (replicate slots 0) no_slot 1,
    length-zeros slots,
  );
  newest = inl (refl, refl);
  apart = tt;
}

-- The ring of a constructor call that succeeds, with at most 2^32 - 1 slots, is valid before any
-- handle is given.
pub create-IsValid :
    (slots frame_bytes : ℕ) {r : Ring}
    → slots ≤ no_slot
    → create slots frame_bytes ≡ some r
    → IsValid (opened r)
create-IsValid slots frame_bytes h e =
    rw (create-eq_fresh slots frame_bytes e).1 (fresh-IsValid slots frame_bytes h)
