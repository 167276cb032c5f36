-- ===== src/Recording/Staging/Slots.antt =====
-- Frames in slots that follow each other around the ring.
use perception_pipeline.Recording.{Frame}
use native.Mathlib.Nat.{mod-eq_of_lt, mod-eq-sub-mod, mod-add-mod, mod-lt}
use perception_pipeline.Prelude.{
  List, [], ap, arith, false, if◌then◌else◌, length, ltb, refl, subst, suc, sym, true, zero, ℕ, ◌%◌,
  ◌++◌, ◌+◌, ◌-◌, ◌<◌, ◌==◌, ◌∙◌, ◌∷◌, ◌≡◌, ◌≢◌, ◌≤◌,
}

-- The slots from `head` on hold the frames, in order.
pub data InSlots (slots : ℕ → Frame) (n : ℕ) : ℕ → List Frame → Type 0 where
  none_there : {head : ℕ} → InSlots slots n head []
  one_there :
      {head : ℕ} {f : Frame} {fs : List Frame}
      → slots head ≡ f
      → InSlots slots n ((head + 1) % n) fs
      → InSlots slots n head (f ∷ fs)

pub next-lt : (head n : ℕ) → head < n → (head + 1) % n < n
next-lt head n h = mod-lt (head + 1) (omega (arith, h))

pub next-add : (head n k : ℕ) → ((head + 1) % n + k) % n ≡ (head + (k + 1)) % n
next-add head n k =
    let same : head + 1 + k ≡ head + (k + 1) = omega arith in
    mod-add-mod (head + 1) n k ∙ ap (λ x. x % n) same

-- Slots less than a round apart differ.
apart : (head n k : ℕ) → head < n → 1 ≤ k → k < n → head ≢ (head + k) % n
apart head n k h o l e =
    elim (ltb (head + k) n) as (λ t. ltb (head + k) n ≡ t → ⊥) [
      | true ↦ λ b.
          let same : (head + k) % n ≡ head + k = mod-eq_of_lt (ground (arith, b)) in
          absurd (omega (arith, e, same, o))
      | false ↦ λ b.
          let same : (head + k) % n ≡ (head + k - n) % n = mod-eq-sub-mod (ground (arith, b)) in
          let small : (head + k - n) % n ≡ head + k - n = mod-eq_of_lt (ground (arith, b, h, l)) in
          absurd (ground (arith, e, same, small, o, l, b, h))
    ]
      refl

other : {a b : ℕ} → a ≢ b → (a == b) ≡ false
other {a} {b} h =
    elim (a == b) as (λ t. (a == b) ≡ t → t ≡ false) [
      | true ↦ λ e. absurd (h (ground (arith, e)))
      | false ↦ λ e. refl
    ]
      refl

pub InSlots-append :
    (slots : ℕ → Frame) (n head : ℕ) (fs : List Frame) (f : Frame)
    → head < n
    → InSlots slots n head fs
    → slots ((head + length fs) % n) ≡ f
    → InSlots slots n head (fs ++ f ∷ [])
InSlots-append slots n head [] f h none_there e =
    let here : (head + 0) % n ≡ head = ap (λ x. x % n) (omega arith) ∙ mod-eq_of_lt h in
    one_there (ap slots (sym here) ∙ e) none_there
InSlots-append slots n head (g ∷ fs) f h (one_there p r) e = one_there p (
    InSlots-append slots n ((head + 1) % n) fs f (next-lt head n h) r
      (ap slots (next-add head n (length fs) ∙ ap (λ k. (head + k) % n) (omega arith)) ∙ e))

pub InSlots-copy :
    (slots : ℕ → Frame) (n head k : ℕ) (fs : List Frame) (f : Frame)
    → head < n
    → length fs ≤ k
    → k < n
    → InSlots slots n head fs
    → InSlots (λ j. if j == (head + k) % n then f else slots j) n head fs
InSlots-copy slots n head k [] f h s l none_there = none_there
InSlots-copy slots n head zero (g ∷ fs) f h s l (one_there p r) = absurd (omega (arith, s))
InSlots-copy slots n head (suc k) (g ∷ fs) f h s l (one_there p r) =
    let differs : (head == (head + suc k) % n) ≡ false =
      other (apart head n (suc k) h (omega arith) l) in
    let place : ((head + 1) % n + k) % n ≡ (head + suc k) % n =
      next-add head n k ∙ ap (λ i. (head + i) % n) (omega arith) in
    let rest =
      InSlots-copy slots n ((head + 1) % n) k fs f (next-lt head n h) (omega (arith, s))
        (omega (arith, l)) r in
    one_there (rw differs p)
      (subst (λ m. InSlots (λ j. if j == m then f else slots j) n ((head + 1) % n) fs) place rest)
