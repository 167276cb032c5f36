-- ===== src/IngressRing/InFlight.antt =====
-- An external ring, whose slots a camera's transport fills in any order: frames come out in the order in which
-- they were committed, and no slot is committed again before its consumer is done with it.
use perception_pipeline.Prelude.{
  Bool, List, [], ap, arith, count, erase_one, false, get_or, get_or-set_ne, if◌then◌else◌, length,
  ltb, map, refl, set, suc, sym, true, zero, ℕ, ◌++◌, ◌+◌, ◌<◌, ◌==◌, ◌∷◌, ◌≡◌, ◌≢◌,
}
use perception_pipeline.IngressRing.{
  IngressRing, SlotState, idle, committed_slot, releasing, count_slots, Outcome, failed, done,
  put_ready, commit_external, Staged, staged_at, Taken, no_frame, frame, take_ready, release,
  Consumed, no_such_slot, answer, slot_consumed, is_idle, is_releasing, stop,
}

pub data Event : Type 0 where
  commits : ℕ → ℕ → ℕ → Event
  pops : Event
  releases : ℕ → Event
  asks : ℕ → Bool → Event
  stops : Event

-- `held` are the slots that were popped and not released, `came` the frames that were committed and
-- `went` those that were popped. `pending` are the slots that a commit filled and that slot_consumed has
-- not since reported consumed, one entry for each commit: all that the transport can know.
pub record World : Type 0 where
  pub ring : IngressRing
  pub held : List ℕ
  pub came : List Staged
  pub went : List Staged
  pub pending : List ℕ

abbrev pub after_commit : World → ℕ → Outcome → World
after_commit w slot (failed e) = w
after_commit w slot (done r) = record w {
  ring = r;
  came = w.came ++ staged_at r slot ∷ [];
  pending = slot ∷ w.pending;
}

abbrev pub after_pop : World → Taken → World
after_pop w no_frame = w
after_pop w (frame f r) = record w {
  ring = r;
  held = w.held ++ f.slot ∷ [];
  went = w.went ++ f ∷ [];
}

abbrev pub after_release : World → ℕ → Outcome → World
after_release w slot (failed e) = w
after_release w slot (done r) = record w { ring = r; held = erase_one slot w.held }

abbrev pub after_ask : World → ℕ → Consumed → World
after_ask w slot no_such_slot = w
after_ask w slot (answer false r) = record w { ring = r }
after_ask w slot (answer true r) = record w { ring = r; pending = erase_one slot w.pending }

-- The consumer releases only what it has popped.
unfoldable pub step : World → Event → World
unfolding commit_external take_ready release slot_consumed stop
step w (commits slot t b) = after_commit w slot (commit_external w.ring slot t b)
step w pops = after_pop w (take_ready w.ring)
step w (releases slot) =
    if ltb 0 (count slot w.held) then after_release w slot (release w.ring slot) else w
step w (asks slot retired) = after_ask w slot (slot_consumed w.ring slot retired)
step w stops = record w { ring = stop w.ring }

unfoldable pub run : World → List Event → World
unfolding step
run w [] = w
run w (e ∷ es) = run (step w e) es

abbrev pub is_committed : SlotState → Bool
is_committed committed_slot = true
is_committed _ = false

pub record Orderly (w : World) : Type 0 where
  pub states : length w.ring.state ≡ count_slots w.ring
  pub stamps : length w.ring.timestamp_ns ≡ count_slots w.ring
  pub sizes : length w.ring.bytes ≡ count_slots w.ring
  pub once :
      (s : ℕ)
      → count s w.ring.ready + count s w.held
        ≡ (if is_committed (get_or w.ring.state s idle) then 1 else 0)
  pub in_order : w.went ++ map (staged_at w.ring) w.ring.ready ≡ w.came

-- A slot is filled once, at most, before it is reported consumed: just while it is not idle.
pub record IsGuarded (w : World) : Type 0 where
  pub filled_once :
      (s : ℕ) → count s w.pending ≡ (if is_idle (get_or w.ring.state s idle) then 0 else 1)

pub map-append_one :
    (f : ℕ → Staged) (xs : List ℕ) (x : ℕ) → map f (xs ++ x ∷ []) ≡ map f xs ++ f x ∷ []
map-append_one f [] x = refl
map-append_one f (y ∷ ys) x = ap (λ fs. f y ∷ fs) (map-append_one f ys x)

pub frames-put_ready :
    (r : IngressRing) (slot t b : ℕ) (xs : List ℕ)
    → count slot xs ≡ 0
    → map (staged_at (put_ready r slot t b)) xs ≡ map (staged_at r) xs
frames-put_ready r slot t b [] h = refl
frames-put_ready r slot t b (x ∷ xs) h =
    let apart : slot ≢ x = λ e. ground arith in
    let bytes_same = get_or-set_ne r.bytes slot x b 0 apart in
    let stamp_same = get_or-set_ne r.timestamp_ns slot x t 0 apart in
    rw bytes_same (
      rw stamp_same (ap (λ fs. staged_at r x ∷ fs) (frames-put_ready r slot t b xs (ground arith))))

pub states-set :
    (xs : List SlotState) (i j : ℕ) (v : SlotState)
    → i < length xs
    → is_committed (get_or (set xs i v) j idle)
      ≡ (if i == j then is_committed v else is_committed (get_or xs j idle))
states-set [] i j v h = elim h [ ]
states-set (x ∷ xs) zero zero v h = refl
states-set (x ∷ xs) zero (suc j) v h = ground arith
states-set (x ∷ xs) (suc i) zero v h = ground arith
states-set (x ∷ xs) (suc i) (suc j) v h = ground (arith, states-set xs i j v)

pub idle-uncommitted : (s : SlotState) → is_idle s ≡ true → is_committed s ≡ false
idle-uncommitted idle e = refl
idle-uncommitted committed_slot e = sym e
idle-uncommitted releasing e = refl

pub releasing-uncommitted : (s : SlotState) → is_releasing s ≡ true → is_committed s ≡ false
releasing-uncommitted idle e = refl
releasing-uncommitted committed_slot e = sym e
releasing-uncommitted releasing e = refl
