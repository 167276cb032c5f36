-- ===== src/Ros/Replay/Slots/Messages.antt =====
-- on_message: the slots before and after it, and its return.
use perception_pipeline.Ros.Replay.{decode_image, DecodedImage}
use perception_pipeline.Ros.Replay.Slots.Filling.{
  acquire_slot-returns, acquire_slot-Sound, Sound, Told, Ends,
}
use perception_pipeline.Ros.Replay.Slots.{
  waited_for, fill, acquire_slot, fill_acquired, fill_slot, refuse, Commit, Acquired, Handled,
  DecodedImage, ReplayMessage, Poll, on_message, Source, place,
}
use perception_pipeline.Prelude.{
  Bool, List, Option, [], arith, false, get_elem?, get_elem?-set_self, if◌then◌else◌, inc64, inl,
  length, ltb, none, not, refl, set, some, some-injective, subst, suc, true, zero, ℕ, ◌<◌, ◌∷◌, ◌≡◌,
  ◌≢◌, ◌≤◌, ◌⊎◌,
}

abbrev pub is_some : {A : Type 0} → Option A → Bool
is_some none = false
is_some (some a) = true

-- What on_message promises of the slots and of the buffer.
pub record Careful (s : Source) (polls : List Poll) (r : Handled) : Type 0 where
  pub fits : (c : Commit) → r.commit ≡ some c → length c.pixels ≤ s.buffer_bytes
  pub free :
      (c : Commit) → r.commit ≡ some c → (get_elem? s.held c.slot ≡ some false) ⊎ Told c.slot polls
  pub marked : (c : Commit) → r.commit ≡ some c → get_elem? r.source.held c.slot ≡ some true
  pub kept :
      (i : ℕ)
      → get_elem? r.source.held i ≡ some false
      → (get_elem? s.held i ≡ some false) ⊎ Told i polls
  pub answered : r.result ≡ is_some r.commit

refuse-Careful :
    (s t : Source) (polls : List Poll)
    → ((i : ℕ) → get_elem? t.held i ≡ some false → (get_elem? s.held i ≡ some false) ⊎ Told i polls)
    → Careful s polls (record { source = t; result = false; commit = none })
refuse-Careful s t polls h = record {
  fits = λ c e. absurd (ground (arith, e));
  free = λ c e. absurd (ground (arith, e));
  marked = λ c e. absurd (ground (arith, e));
  kept = h;
  answered = refl;
}

get_elem?-some : (xs : List Bool) (i : ℕ) {v : Bool} → get_elem? xs i ≡ some v → i < length xs
get_elem?-some [] i e = absurd (ground (arith, e))
get_elem?-some (x ∷ xs) zero e = omega arith
get_elem?-some (x ∷ xs) (suc i) e = omega (arith, get_elem?-some xs i e)

set-kept :
    (xs : List Bool) (j i : ℕ)
    → get_elem? (set xs j true) i ≡ some false
    → get_elem? xs i ≡ some false
set-kept [] j i e = e
set-kept (x ∷ xs) zero zero e = absurd (ground (arith, e))
set-kept (x ∷ xs) zero (suc i) e = e
set-kept (x ∷ xs) (suc j) zero e = e
set-kept (x ∷ xs) (suc j) (suc i) e = set-kept xs j i e

one_fill :
    (s : Source) (m : ReplayMessage) (image : DecodedImage) (now : ℕ) (polls : List Poll)
    (a : Acquired) (slot : ℕ)
    → Sound polls s.held a
    → length image.pixels ≤ s.buffer_bytes
    → a.slot ≡ some slot
    → Careful s polls (fill (waited_for s a) slot m image now)
one_fill s m image now polls a slot h small q =
    let (f, t) = h.given slot q in
    record {
      fits = λ c e. subst (λ d. length d.pixels ≤ s.buffer_bytes) (some-injective e) small;
      free = λ c e.
          subst (λ d. (get_elem? s.held d.slot ≡ some false) ⊎ Told d.slot polls) (some-injective e)
            t;
      marked = λ c e.
          subst (λ d. get_elem? (set a.held slot true) d.slot ≡ some true) (some-injective e)
            (get_elem?-set_self a.held slot true (get_elem?-some a.held slot f));
      kept = λ i k. h.reclaimed i (set-kept a.held slot i k);
      answered = refl;
    }

filled-Careful :
    (s : Source) (m : ReplayMessage) (image : DecodedImage) (now : ℕ) (polls : List Poll)
    (a : Acquired) {r : Handled}
    → Sound polls s.held a
    → length image.pixels ≤ s.buffer_bytes
    → fill_slot (waited_for s a) m image now a.slot ≡ some r
    → Careful s polls r
filled-Careful s m image now polls a {r} h small e =
    (elim (a.slot)
        as (λ f.
          a.slot ≡ f → fill_slot (waited_for s a) m image now f ≡ some r → Careful s polls r) [
            | none ↦ λ q k.
                subst (Careful s polls) (some-injective k)
                  (refuse-Careful s (waited_for s a) polls h.reclaimed)
            | some slot ↦ λ q k.
                subst (Careful s polls) (some-injective k)
                  (one_fill s m image now polls a slot h small q)
          ])
      refl e

acquired-Careful :
    (s : Source) (m : ReplayMessage) (image : DecodedImage) (now : ℕ) (polls : List Poll)
    {r : Handled}
    → length image.pixels ≤ s.buffer_bytes
    → (found : Option Acquired) → acquire_slot polls false s.held ≡ found
    → fill_acquired s m image now found ≡ some r
    → Careful s polls r
acquired-Careful s m image now polls small none q e = absurd (ground (arith, e))
acquired-Careful s m image now polls small (some a) q e =
    filled-Careful s m image now polls a (acquire_slot-Sound polls false s.held q) small e

place-Careful :
    (s : Source) (m : ReplayMessage) (now : ℕ) (polls : List Poll) (image : Option DecodedImage)
    {r : Handled}
    → place s m now polls image ≡ some r
    → Careful s polls r
unfolding place
place-Careful s m now polls none {r} e =
    subst (Careful s polls) (some-injective e) (refuse-Careful s _ polls (λ i k. inl k))
place-Careful s m now polls (some image) {r} e =
    (elim (ltb s.buffer_bytes (length image.pixels))
        as (λ t.
          ltb s.buffer_bytes (length image.pixels) ≡ t
          → (if t
              then refuse (record s { undecodable = inc64 s.undecodable })
              else fill_acquired s m image now (acquire_slot polls false s.held))
            ≡ some r
          → Careful s polls r) [
            | true ↦ λ q k.
                subst (Careful s polls) (some-injective k) (refuse-Careful s _ polls (λ i f. inl f))
            | false ↦ λ q k.
                acquired-Careful s m image now polls (ground (arith, q))
                  (acquire_slot polls false s.held) refl k
          ])
      refl e

-- Whenever on_message returns: a frame that it commits fits the source's buffers and lies in a slot that
-- was not held, or has been reported consumed in one of the polls, and is held now; no slot is
-- held no more unless it was reported consumed; and the result is true when a frame was
-- committed and false when none was.
pub on_message-Careful :
    (s : Source) (m : ReplayMessage) (now : ℕ) (polls : List Poll) {r : Handled}
    → on_message s m now polls ≡ some r
    → Careful s polls r
unfolding on_message
on_message-Careful s m now polls {r} e =
    (elim (not s.started)
        as (λ t.
          (if t then refuse s else place s m now polls (decode_image m.content)) ≡ some r
          → Careful s polls r) [
            | true ↦ λ k.
                subst (Careful s polls) (some-injective k) (refuse-Careful s s polls (λ i f. inl f))
            | false ↦ λ k. place-Careful s m now polls (decode_image m.content) k
          ])
      e

fill_slot-returns :
    (s : Source) (m : ReplayMessage) (image : DecodedImage) (now : ℕ) (slot : Option ℕ)
    → fill_slot s m image now slot ≢ none
fill_slot-returns s m image now none e = ground (arith, e)
fill_slot-returns s m image now (some slot) e = ground (arith, e)

fill_acquired-returns :
    (s : Source) (m : ReplayMessage) (image : DecodedImage) (now : ℕ) (found : Option Acquired)
    → found ≢ none
    → fill_acquired s m image now found ≢ none
fill_acquired-returns s m image now none h = absurd (h refl)
fill_acquired-returns s m image now (some a) h =
    fill_slot-returns (waited_for s a) m image now a.slot

place-returns :
    (s : Source) (m : ReplayMessage) (now : ℕ) (polls : List Poll) (image : Option DecodedImage)
    → Ends polls
    → place s m now polls image ≢ none
unfolding place
place-returns s m now polls none h = λ e. ground (arith, e)
place-returns s m now polls (some image) h =
    elim (ltb s.buffer_bytes (length image.pixels))
      as (λ t.
        (if t
          then refuse (record s { undecodable = inc64 s.undecodable })
          else fill_acquired s m image now (acquire_slot polls false s.held))
        ≢ none) [
          | true ↦ λ e. ground (arith, e)
          | false ↦
              fill_acquired-returns s m image now _ (acquire_slot-returns polls false s.held h)
        ]

-- on_message returns, for any source and message, once one of its polls sees that the player has
-- stopped or that the deadline has passed.
pub on_message-returns :
    (s : Source) (m : ReplayMessage) (now : ℕ) (polls : List Poll)
    → Ends polls
    → on_message s m now polls ≢ none
unfolding on_message
on_message-returns s m now polls h =
    elim (not s.started)
      as (λ t. (if t then refuse s else place s m now polls (decode_image m.content)) ≢ none) [
        | true ↦ λ e. ground (arith, e)
        | false ↦ place-returns s m now polls (decode_image m.content) h
      ]
