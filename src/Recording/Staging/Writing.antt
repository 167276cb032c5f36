-- ===== src/Recording/Staging/Writing.antt =====
-- The writer thread's side of the staging ring, and close.
use perception_pipeline.Recording.Staging.Slots.{next-lt, next-add, one_there, InSlots}
use perception_pipeline.Recording.{Frame}
use perception_pipeline.Recording.Staging.{
  finishes, finish, writes, close, drained, nothing, writer_of, looks, look, has_put, writing, left,
  resting, reserved, Writer, copied, idle, Staging, World, Pusher,
}
use perception_pipeline.Prelude.{
  Bool, List, [], ap, append_assoc, arith, false, if◌then◌else◌, length, refl, subst, sym, true, ℕ,
  ◌%◌, ◌++◌, ◌+◌, ◌==◌, ◌∙◌, ◌∷◌, ◌≡◌,
}
use perception_pipeline.Recording.Staging.Ring.{
  PusherAt, WriterAt, Whole, rested, is_idle, is_reserved, is_copied, rests, is_gone, is_writing,
  has_written,
}

pub looks-Whole : (w : World) → w.writer ≡ resting → Whole w → Whole (looks w resting)
unfolding look
looks-Whole w e h = seen h.pending refl
  where
    given : w.given ≡ h.finished
    given = rested (subst (λ v. WriterAt w.staging.head w.given h.finished v h.pending) e h.writer)

    found :
        (v : Writer)
        → WriterAt w.staging.head w.given h.finished v h.pending
        → Whole (record w { writer = v })
    found v at = record {
      pending = h.pending;
      finished = h.finished;
      head_in = h.head_in;
      published = h.published;
      count = h.count;
      room = h.room;
      slots = h.slots;
      pusher = h.pusher;
      writer = at;
      accepted = h.accepted;
    }

    nothing_there :
        (b : Bool) → Whole (record w { writer = writer_of (if b then nothing else drained) })
    nothing_there true = found resting (rests given)
    nothing_there false = found left (is_gone given)

    seen :
        (fs : List Frame)
        → h.pending ≡ fs
        → Whole (record w { writer = writer_of (look w.staging) })
    seen [] k =
        let dry : (w.staging.published == 0) ≡ true = ground (arith, h.published, ap length k) in
        rw dry (nothing_there w.staging.running)
    seen (f ∷ fs) k =
        let some_there : (w.staging.published == 0) ≡ false =
          ground (arith, h.published, ap length k) in
        rw some_there (
          found (writing w.staging.head) (
            subst (WriterAt w.staging.head w.given h.finished (writing w.staging.head)) (sym k)
              (is_writing refl given)))

-- The frame that the writer thread has just written, in front of the other published ones.
record JustWritten (given finished pending : List Frame) : Type 0 where
  frame : Frame
  behind : List Frame
  first : pending ≡ frame ∷ behind
  put : given ≡ finished ++ frame ∷ []

written_of :
    {head : ℕ} {given finished fs : List Frame} {ok : Bool}
    → WriterAt head given finished (has_put ok) fs
    → JustWritten given finished fs
written_of (has_written {f} {fs} e) = record { frame = f; behind = fs; first = refl; put = e }

InSlots-behind :
    {slots : ℕ → Frame} {n head : ℕ} {f : Frame} {fs : List Frame}
    → InSlots slots n head (f ∷ fs)
    → InSlots slots n ((head + 1) % n) fs
InSlots-behind (one_there p r) = r

InSlots-first :
    {slots : ℕ → Frame} {n head : ℕ} {f : Frame} {fs : List Frame}
    → InSlots slots n head (f ∷ fs)
    → slots head ≡ f
InSlots-first (one_there p r) = p

moves_on :
    (s : Staging) (ok : Bool) (k : ℕ) (p : Pusher)
    → PusherAt s (k + 1) p
    → PusherAt (finish s ok) k p
unfolding finish
moves_on s ok k idle is_idle = is_idle
moves_on s ok k (reserved slot f) (is_reserved e) = is_reserved (e ∙ sym (next-add s.head s.size k))
moves_on s ok k (copied slot f) (is_copied e g) = is_copied (e ∙ sym (next-add s.head s.size k)) g

pub finishes-Whole :
    (w : World) (ok : Bool) → w.writer ≡ has_put ok → Whole w → Whole (finishes w (has_put ok))
unfolding finish
finishes-Whole w ok e h =
    let j =
      written_of (subst (λ v. WriterAt w.staging.head w.given h.finished v h.pending) e h.writer) in
    let n : length h.pending ≡ length j.behind + 1 = omega (arith, ap length j.first) in
    record {
      pending = j.behind;
      finished = h.finished ++ j.frame ∷ [];
      head_in = next-lt w.staging.head w.staging.size h.head_in;
      published = omega (arith, h.published, n);
      count = omega (arith, h.count, n);
      room = omega (arith, h.room);
      slots =
          InSlots-behind
            (subst (InSlots w.staging.slots w.staging.size w.staging.head) j.first h.slots);
      pusher =
          moves_on w.staging ok (length j.behind) w.pusher
            (subst (λ k. PusherAt w.staging k w.pusher) n h.pusher);
      writer = rests j.put;
      accepted =
          h.accepted
          ∙ (ap (λ fs. h.finished ++ fs) j.first
              ∙ sym (append_assoc h.finished (j.frame ∷ []) j.behind));
    }

-- The frame in the slot that the writer thread has taken.
record Taken (s : Staging) (slot : ℕ) (given finished pending : List Frame) : Type 0 where
  frame : Frame
  behind : List Frame
  first : pending ≡ frame ∷ behind
  here : slot ≡ s.head
  none_more : given ≡ finished

taken_of :
    {s : Staging} {given finished fs : List Frame} {slot : ℕ}
    → WriterAt s.head given finished (writing slot) fs
    → Taken s slot given finished fs
taken_of (is_writing {f} {fs} k e) = record {
  frame = f;
  behind = fs;
  first = refl;
  here = k;
  none_more = e;
}

pub writes-Whole :
    (w : World) (ok : Bool) (slot : ℕ)
    → w.writer ≡ writing slot
    → Whole w
    → Whole (writes w ok (writing slot))
writes-Whole w ok slot e h =
    let t =
      taken_of {s = w.staging}
        (subst (λ v. WriterAt w.staging.head w.given h.finished v h.pending) e h.writer) in
    let intact : w.staging.slots slot ≡ t.frame =
      ap w.staging.slots t.here
      ∙ InSlots-first
          (subst (InSlots w.staging.slots w.staging.size w.staging.head) t.first h.slots) in
    let put : w.given ++ w.staging.slots slot ∷ [] ≡ h.finished ++ t.frame ∷ [] =
      ap (λ g. g ++ w.staging.slots slot ∷ []) t.none_more
      ∙ ap (λ f. h.finished ++ f ∷ []) intact in
    record {
      pending = h.pending;
      finished = h.finished;
      head_in = h.head_in;
      published = h.published;
      count = h.count;
      room = h.room;
      slots = h.slots;
      pusher = h.pusher;
      writer =
          subst
            (WriterAt w.staging.head (w.given ++ w.staging.slots slot ∷ []) h.finished (has_put ok))
            (sym t.first) (has_written put);
      accepted = h.accepted;
    }

same_place : (s : Staging) (k : ℕ) (p : Pusher) → PusherAt s k p → PusherAt (close s) k p
unfolding close
same_place s k idle is_idle = is_idle
same_place s k (reserved slot f) (is_reserved e) = is_reserved e
same_place s k (copied slot f) (is_copied e g) = is_copied e g

pub close-Whole : (w : World) → Whole w → Whole (record w { staging = close w.staging })
unfolding close
close-Whole w h = record {
  pending = h.pending;
  finished = h.finished;
  head_in = h.head_in;
  published = h.published;
  count = h.count;
  room = h.room;
  slots = h.slots;
  pusher = same_place w.staging (length h.pending) w.pusher h.pusher;
  writer = h.writer;
  accepted = h.accepted;
}
