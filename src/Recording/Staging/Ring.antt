-- ===== src/Recording/Staging/Ring.antt =====
-- What the staging ring holds, and the pusher's side of it.
use perception_pipeline.Recording.Staging.Slots.{InSlots-append, InSlots-copy, InSlots}
use perception_pipeline.Recording.{Frame}
use perception_pipeline.Recording.Staging.{
  begun, has_put, writing, left, push_ends, push_copies, resting, push_begins, reserved, Writer,
  copied, idle, publish, reserve, Staging, World, Pusher, copy,
}
use perception_pipeline.Prelude.{
  Bool, List, [], ap, append_assoc, arith, false, if◌then◌else◌, inc64, length, length-append, max,
  none, not, refl, some, subst, sym, true, ℕ, ◌%◌, ◌++◌, ◌+◌, ◌<◌, ◌==◌, ◌||◌, ◌∙◌, ◌∷◌, ◌≡◌, ◌≤◌,
}

abbrev pub in_pusher : Pusher → ℕ
in_pusher idle = 0
in_pusher (reserved slot f) = 1
in_pusher (copied slot f) = 1

-- The pusher's slot is the one behind the `k` published ones.
pub data PusherAt (s : Staging) (k : ℕ) : Pusher → Type 0 where
  is_idle : PusherAt s k idle
  is_reserved :
      {slot : ℕ} {f : Frame} → slot ≡ (s.head + k) % s.size → PusherAt s k (reserved slot f)
  is_copied :
      {slot : ℕ} {f : Frame}
      → slot ≡ (s.head + k) % s.size
      → s.slots slot ≡ f
      → PusherAt s k (copied slot f)

-- The writer thread works on the first of the published frames.
pub data WriterAt (head : ℕ) (given finished : List Frame) : Writer → List Frame → Type 0 where
  rests : {fs : List Frame} → given ≡ finished → WriterAt head given finished resting fs
  is_gone : {fs : List Frame} → given ≡ finished → WriterAt head given finished left fs
  is_writing :
      {f : Frame} {fs : List Frame} {slot : ℕ}
      → slot ≡ head
      → given ≡ finished
      → WriterAt head given finished (writing slot) (f ∷ fs)
  has_written :
      {f : Frame} {fs : List Frame} {ok : Bool}
      → given ≡ finished ++ f ∷ []
      → WriterAt head given finished (has_put ok) (f ∷ fs)

pub record Whole (w : World) : Type 0 where
  pub pending : List Frame
  pub finished : List Frame
  pub head_in : w.staging.head < w.staging.size
  pub published : w.staging.published ≡ length pending
  pub count : w.staging.count ≡ length pending + in_pusher w.pusher
  pub room : w.staging.count ≤ w.staging.size
  pub slots : InSlots w.staging.slots w.staging.size w.staging.head pending
  pub pusher : PusherAt w.staging (length pending) w.pusher
  pub writer : WriterAt w.staging.head w.given finished w.writer pending
  pub accepted : w.accepted ≡ finished ++ pending

pub begins-Whole :
    (w : World) (f : Frame) → w.pusher ≡ idle → Whole w → Whole (push_begins w f idle)
unfolding reserve
begins-Whole w f e h =
    elim (not w.staging.running || (w.staging.failed || w.staging.count == w.staging.size))
        as (λ t.
          (not w.staging.running || (w.staging.failed || w.staging.count == w.staging.size)) ≡ t
          → Whole (
              begun w f (
                if t
                then record {
                  staging = record w.staging { drops = inc64 w.staging.drops };
                  slot = none;
                }
                else record {
                  staging = record w.staging {
                    count = w.staging.count + 1;
                    peak = max (w.staging.count + 1) w.staging.peak;
                  };
                  slot = some ((w.staging.head + w.staging.count) % w.staging.size);
                }))) [
                  | true ↦ λ k. record {
                    pending = h.pending;
                    finished = h.finished;
                    head_in = h.head_in;
                    published = h.published;
                    count = h.count ∙ ap (λ p. length h.pending + in_pusher p) e;
                    room = h.room;
                    slots = h.slots;
                    pusher = is_idle;
                    writer = h.writer;
                    accepted = h.accepted;
                  }
                  | false ↦ λ k.
                      let whole : w.staging.count ≡ length h.pending =
                        h.count ∙ (ap (λ p. length h.pending + in_pusher p) e ∙ omega arith) in
                      record {
                        pending = h.pending;
                        finished = h.finished;
                        head_in = h.head_in;
                        published = h.published;
                        count = omega (arith, whole);
                        room = ground (arith, h.room, k);
                        slots = h.slots;
                        pusher =
                            is_reserved (ap (λ c. (w.staging.head + c) % w.staging.size) whole);
                        writer = h.writer;
                        accepted = h.accepted;
                      }
                ]
      refl

reserved_at :
    {s : Staging} {k slot : ℕ} {f : Frame}
    → PusherAt s k (reserved slot f)
    → slot ≡ (s.head + k) % s.size
reserved_at (is_reserved e) = e

pub rested :
    {head : ℕ} {given finished fs : List Frame}
    → WriterAt head given finished resting fs
    → given ≡ finished
rested (rests e) = e

copied_at :
    {s : Staging} {k slot : ℕ} {f : Frame}
    → PusherAt s k (copied slot f)
    → (slot ≡ (s.head + k) % s.size) × (s.slots slot ≡ f)
copied_at (is_copied e g) = (e, g)

one_more :
    {head : ℕ} {given finished fs : List Frame} {writer : Writer} (f : Frame)
    → WriterAt head given finished writer fs
    → WriterAt head given finished writer (fs ++ f ∷ [])
one_more f (rests e) = rests e
one_more f (is_gone e) = is_gone e
one_more f (is_writing s e) = is_writing s e
one_more f (has_written e) = has_written e

pub copies-Whole :
    (w : World) (slot : ℕ) (f : Frame)
    → w.pusher ≡ reserved slot f
    → Whole w
    → Whole (push_copies w (reserved slot f))
unfolding copy
copies-Whole w slot f e h =
    let place : slot ≡ (w.staging.head + length h.pending) % w.staging.size =
      reserved_at (subst (PusherAt w.staging (length h.pending)) e h.pusher) in
    let full : w.staging.count ≡ length h.pending + 1 =
      h.count ∙ ap (λ p. length h.pending + in_pusher p) e in
    let own : (slot == slot) ≡ true = ground arith in
    record {
      pending = h.pending;
      finished = h.finished;
      head_in = h.head_in;
      published = h.published;
      count = full;
      room = h.room;
      slots =
          subst
            (λ m.
              InSlots (λ j. if j == m then f else w.staging.slots j) w.staging.size w.staging.head
                h.pending)
            (sym place)
            (InSlots-copy w.staging.slots w.staging.size w.staging.head (length h.pending) h.pending
              f h.head_in (omega arith) (omega (arith, full, h.room)) h.slots);
      pusher = is_copied place (rw own refl);
      writer = h.writer;
      accepted = h.accepted;
    }

pub ends-Whole :
    (w : World) (slot : ℕ) (f : Frame)
    → w.pusher ≡ copied slot f
    → Whole w
    → Whole (push_ends w (copied slot f))
unfolding publish
ends-Whole w slot f e h =
    let (place, held) = copied_at (subst (PusherAt w.staging (length h.pending)) e h.pusher) in
    let full : w.staging.count ≡ length h.pending + 1 =
      h.count ∙ ap (λ p. length h.pending + in_pusher p) e in
    let longer = length-append {A = Frame} h.pending (f ∷ []) in
    record {
      pending = h.pending ++ f ∷ [];
      finished = h.finished;
      head_in = h.head_in;
      published = omega (arith, h.published, longer);
      count = omega (arith, full, longer);
      room = h.room;
      slots =
          InSlots-append w.staging.slots w.staging.size w.staging.head h.pending f h.head_in h.slots
            (ap w.staging.slots (sym place) ∙ held);
      pusher = is_idle;
      writer = one_more f h.writer;
      accepted = ap (λ fs. fs ++ f ∷ []) h.accepted ∙ append_assoc h.finished h.pending (f ∷ []);
    }
