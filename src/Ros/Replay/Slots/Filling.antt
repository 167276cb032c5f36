-- ===== src/Ros/Replay/Slots/Filling.antt =====
-- Which slots acquire_slot and on_message take, and that they return.
use perception_pipeline.Ros.Replay.Slots.{
  after_round, acquire_slot, Acquired, first_free, reclaim, Poll,
}
use perception_pipeline.Prelude.{
  some-injective, Bool, List, Option, [], ap, arith, false, get_elem?, if◌then◌else◌, inl, inr,
  length, none, not, refl, some, subst, suc, true, zero, ℕ, ◌+◌, ◌||◌, ◌∙◌, ◌∷◌, ◌≡◌, ◌≢◌, ◌⊎◌,
}

-- Some poll sees the player stopped or the deadline passed.
pub data Ends : List Poll → Type 0 where
  stopped : {p : Poll} {ps : List Poll} → p.running ≡ false → Ends (p ∷ ps)
  expired : {p : Poll} {ps : List Poll} → p.past_deadline ≡ true → Ends (p ∷ ps)
  later_on : {p : Poll} {ps : List Poll} → Ends ps → Ends (p ∷ ps)

-- Some poll was told that the slot is consumed.
pub data Told (s : ℕ) : List Poll → Type 0 where
  told_now : {p : Poll} {ps : List Poll} → get_elem? p.consumed s ≡ some true → Told s (p ∷ ps)
  told_later : {p : Poll} {ps : List Poll} → Told s ps → Told s (p ∷ ps)

reclaim-Told :
    (held consumed : List Bool) (s : ℕ)
    → get_elem? (reclaim held consumed) s ≡ some false
    → (get_elem? held s ≡ some false) ⊎ (get_elem? consumed s ≡ some true)
unfolding reclaim
reclaim-Told [] consumed s h = inl h
reclaim-Told (h ∷ held) [] s e = inl e
reclaim-Told (false ∷ held) (c ∷ consumed) zero e = inl refl
reclaim-Told (true ∷ held) (true ∷ consumed) zero e = inr refl
reclaim-Told (true ∷ held) (false ∷ consumed) zero e = inl e
reclaim-Told (h ∷ held) (c ∷ consumed) (suc s) e = reclaim-Told held consumed s e

length-reclaim : (held consumed : List Bool) → length (reclaim held consumed) ≡ length held
unfolding reclaim
length-reclaim [] consumed = refl
length-reclaim (h ∷ held) [] = refl
length-reclaim (h ∷ held) (c ∷ consumed) = ap suc (length-reclaim held consumed)

-- A slot at `from` or behind it, which is free.
record IsFree (held : List Bool) (from slot : ℕ) : Type 0 where
  offset : ℕ
  at : slot ≡ from + offset
  free : get_elem? held offset ≡ some false

first_free-IsFree :
    (held : List Bool) (from : ℕ) {slot : ℕ}
    → first_free held from ≡ some slot
    → IsFree held from slot
unfolding first_free
first_free-IsFree [] from e = ground (arith, e)
first_free-IsFree (false ∷ held) from e = record { offset = 0; at = ground (arith, e); free = refl }
first_free-IsFree (true ∷ held) from e =
    let r = first_free-IsFree held (from + 1) e in
    record { offset = suc r.offset; at = omega (arith, r.at); free = r.free }

-- What acquire_slot promises about the slots.
pub record Sound (polls : List Poll) (held : List Bool) (a : Acquired) : Type 0 where
  pub given :
      (s : ℕ)
      → a.slot ≡ some s
      → (get_elem? a.held s ≡ some false) × ((get_elem? held s ≡ some false) ⊎ Told s polls)
  pub full : a.slot ≡ none → first_free a.held 0 ≡ none
  pub reclaimed :
      (s : ℕ) → get_elem? a.held s ≡ some false → (get_elem? held s ≡ some false) ⊎ Told s polls
  pub same : length a.held ≡ length held

reclaimed_by :
    (p : Poll) (ps : List Poll) (held : List Bool) (s : ℕ)
    → get_elem? (reclaim held p.consumed) s ≡ some false
    → (get_elem? held s ≡ some false) ⊎ Told s (p ∷ ps)
reclaimed_by p ps held s e = elim (reclaim-Told held p.consumed s e) [
  | inl a ↦ inl a
  | inr b ↦ inr (told_now b)
]

at_once :
    (p : Poll) (ps : List Poll) (held : List Bool) (waited : Bool) (found : Option ℕ)
    → first_free (reclaim held p.consumed) 0 ≡ found
    → Sound (p ∷ ps) held (record { slot = found; waited = waited; held = reclaim held p.consumed })
at_once p ps held waited none e = record {
  given = λ s k. ground (arith, k);
  full = λ k. e;
  reclaimed = λ s k. reclaimed_by p ps held s k;
  same = length-reclaim held p.consumed;
}
at_once p ps held waited (some slot) e =
    let r = first_free-IsFree (reclaim held p.consumed) 0 e in
    let there : slot ≡ r.offset = omega (arith, r.at) in
    let free : get_elem? (reclaim held p.consumed) slot ≡ some false =
      ap (get_elem? (reclaim held p.consumed)) there ∙ r.free in
    record {
      given = λ s k.
          let same_slot : slot ≡ s = ground (arith, k) in
          let f : get_elem? (reclaim held p.consumed) s ≡ some false =
            subst (λ i. get_elem? (reclaim held p.consumed) i ≡ some false) same_slot free in
          (f, reclaimed_by p ps held s f);
      full = λ k. ground (arith, k);
      reclaimed = λ s k. reclaimed_by p ps held s k;
      same = length-reclaim held p.consumed;
    }

passed_on :
    (p : Poll) (ps : List Poll) (held : List Bool) (a : Acquired)
    → Sound ps (reclaim held p.consumed) a
    → Sound (p ∷ ps) held a
passed_on p ps held a h =
    let back : (s : ℕ)
        → get_elem? a.held s ≡ some false
        → (get_elem? held s ≡ some false) ⊎ Told s (p ∷ ps) =
      λ s k. elim (h.reclaimed s k) [
        | inl e ↦ reclaimed_by p ps held s e
        | inr t ↦ inr (told_later t)
      ] in
    record {
      given = λ s k. let (f, t) = h.given s k in (f, back s f);
      full = h.full;
      reclaimed = back;
      same = omega (arith, h.same, length-reclaim held p.consumed);
    }

by_round :
    (p : Poll) (ps : List Poll) (held : List Bool) (waited : Bool) (found : Option ℕ)
    (later : Option Acquired) {a : Acquired}
    → first_free (reclaim held p.consumed) 0 ≡ found
    → (later ≡ some a → Sound ps (reclaim held p.consumed) a)
    → after_round found p waited (reclaim held p.consumed) later ≡ some a
    → Sound (p ∷ ps) held a
by_round p ps held waited (some slot) later e rest k =
    subst (Sound (p ∷ ps) held) (some-injective k) (at_once p ps held waited (some slot) e)
by_round p ps held waited none later {a} e rest k =
    elim (not p.running || p.past_deadline)
        as (λ t.
          (if t
              then some (record { slot = none; waited = waited; held = reclaim held p.consumed })
              else later)
            ≡ some a
          → Sound (p ∷ ps) held a) [
            | true ↦ λ q.
                subst (Sound (p ∷ ps) held) (some-injective q) (at_once p ps held waited none e)
            | false ↦ λ q. passed_on p ps held a (rest q)
          ]
      k

-- Whenever acquire_slot returns, in a source with any slots held: the slot that it gives is not held any
-- more, and was free before or has been reported consumed in one of its polls; it gives none only
-- if every slot is held; a slot that it takes from the held ones has been reported consumed;
-- and the number of slots stays.
pub acquire_slot-Sound :
    (polls : List Poll) (waited : Bool) (held : List Bool) {a : Acquired}
    → acquire_slot polls waited held ≡ some a
    → Sound polls held a
unfolding acquire_slot
acquire_slot-Sound [] waited held e = absurd (ground (arith, e))
acquire_slot-Sound (p ∷ ps) waited held {a} e =
    let now = reclaim held p.consumed in
    let later = acquire_slot ps true now in
    let rest : later ≡ some a → Sound ps now a = λ k. acquire_slot-Sound ps true now k in
    by_round p ps held waited (first_free now 0) later refl rest e

after_round-ends :
    (p : Poll) (waited : Bool) (held : List Bool) (found : Option ℕ) (later : Option Acquired)
    → (not p.running || p.past_deadline) ≡ true
    → after_round found p waited held later ≢ none
after_round-ends p waited held (some slot) later e k = ground (arith, k)
after_round-ends p waited held none later e k = absurd (ground (arith, e, k))

after_round-later :
    (p : Poll) (waited : Bool) (held : List Bool) (found : Option ℕ) (later : Option Acquired)
    → later ≢ none
    → after_round found p waited held later ≢ none
after_round-later p waited held (some slot) later e k = ground (arith, k)
after_round-later p waited held none later e k =
    elim (not p.running || p.past_deadline)
        as (λ t.
          (if t then some (record { slot = none; waited = waited; held = held }) else later)
          ≢ none) [ true ↦ λ k. ground (arith, k) | false ↦ e ]
      k

-- The loop of acquire_slot returns, with a slot or without one, in any source and after any waiting, once a
-- poll sees that the player has stopped or that the deadline has passed.
pub acquire_slot-returns :
    (polls : List Poll) (waited : Bool) (held : List Bool)
    → Ends polls
    → acquire_slot polls waited held ≢ none
unfolding acquire_slot
acquire_slot-returns [] waited held h = elim h [ ]
acquire_slot-returns (p ∷ ps) waited held (stopped e) =
    after_round-ends p waited (reclaim held p.consumed) _ _ (ground (arith, e))
acquire_slot-returns (p ∷ ps) waited held (expired e) =
    after_round-ends p waited (reclaim held p.consumed) _ _ (ground (arith, e))
acquire_slot-returns (p ∷ ps) waited held (later_on h) =
    let now = reclaim held p.consumed in
    after_round-later p waited now _ _ (acquire_slot-returns ps true now h)
