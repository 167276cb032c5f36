-- ===== src/Recording/Staging/Runs.antt =====
-- Any run of the pusher, the writer thread and close.
use perception_pipeline.Recording.Staging.Writing.{
  looks-Whole, finishes-Whole, close-Whole, writes-Whole,
}
use perception_pipeline.Recording.{Frame}
use perception_pipeline.Recording.Staging.Slots.{none_there}
use perception_pipeline.Recording.Staging.Ring.{
  copies-Whole, begins-Whole, ends-Whole, rests, WriterAt, is_idle, PusherAt, in_pusher, Whole,
}
use perception_pipeline.Recording.Staging.{
  call_close, has_put, end_write, look_up, end_push, left, copy_frame, copied, writing, reserved,
  push_ends, write_slot, finishes, looks, push_begins, writes, push_copies, run, resting, Writer,
  begin_push, Pusher, idle, World, step, Step,
}
use perception_pipeline.Prelude.{
  Bool, List, [], ap, arith, refl, subst, sym, ◌+◌, ◌∙◌, ◌∷◌, ◌≡◌, ◌≤◌,
}

module _ (w : World) (h : Whole w) where
  begin_push-Whole : (f : Frame) (p : Pusher) → w.pusher ≡ p → Whole (push_begins w f p)
  begin_push-Whole f idle e = begins-Whole w f e h
  begin_push-Whole f (reserved slot g) e = h
  begin_push-Whole f (copied slot g) e = h

  copy_frame-Whole : (p : Pusher) → w.pusher ≡ p → Whole (push_copies w p)
  copy_frame-Whole idle e = h
  copy_frame-Whole (reserved slot g) e = copies-Whole w slot g e h
  copy_frame-Whole (copied slot g) e = h

  end_push-Whole : (p : Pusher) → w.pusher ≡ p → Whole (push_ends w p)
  end_push-Whole idle e = h
  end_push-Whole (reserved slot g) e = h
  end_push-Whole (copied slot g) e = ends-Whole w slot g e h

  look_up-Whole : (v : Writer) → w.writer ≡ v → Whole (looks w v)
  look_up-Whole resting e = looks-Whole w e h
  look_up-Whole left e = h
  look_up-Whole (writing slot) e = h
  look_up-Whole (has_put ok) e = h

  write_slot-Whole : (ok : Bool) (v : Writer) → w.writer ≡ v → Whole (writes w ok v)
  write_slot-Whole ok resting e = h
  write_slot-Whole ok left e = h
  write_slot-Whole ok (writing slot) e = writes-Whole w ok slot e h
  write_slot-Whole ok (has_put b) e = h

  end_write-Whole : (v : Writer) → w.writer ≡ v → Whole (finishes w v)
  end_write-Whole resting e = h
  end_write-Whole left e = h
  end_write-Whole (writing slot) e = h
  end_write-Whole (has_put ok) e = finishes-Whole w ok e h

step-Whole : (s : Step) (w : World) → Whole w → Whole (step s w)
unfolding step
step-Whole (begin_push f) w h = begin_push-Whole w h f w.pusher refl
step-Whole copy_frame w h = copy_frame-Whole w h w.pusher refl
step-Whole end_push w h = end_push-Whole w h w.pusher refl
step-Whole look_up w h = look_up-Whole w h w.writer refl
step-Whole (write_slot ok) w h = write_slot-Whole w h ok w.writer refl
step-Whole end_write w h = end_write-Whole w h w.writer refl
step-Whole call_close w h = close-Whole w h

steps-Whole : (steps : List Step) (w : World) → Whole w → Whole (run steps w)
steps-Whole [] w h = h
steps-Whole (s ∷ steps) w h = steps-Whole steps (step s w) (step-Whole s w h)

-- A new StreamWriter: nothing is staged.
pub record IsNew (w : World) : Type 0 where
  pub some_slot : 1 ≤ w.staging.size
  pub start : w.staging.head ≡ 0
  pub no_count : w.staging.count ≡ 0
  pub none_published : w.staging.published ≡ 0
  pub no_push : w.pusher ≡ idle
  pub no_write : w.writer ≡ resting
  pub none_accepted : w.accepted ≡ []
  pub none_given : w.given ≡ []

-- In every run of the threads around a new StreamWriter of one slot or more, with one thread that pushes: the
-- frames whose push returned true are those that the writer thread is done with, in the order of
-- their pushes, then the published ones, which lie intact in the slots from head on; published counts
-- these, and count also the one whose push is under way, within the size of the ring, whose slot is behind
-- theirs; and the frames that went to the disk are those that are done with, and, once it is
-- written, the one at head.
pub run-Whole : (steps : List Step) (w : World) → IsNew w → Whole (run steps w)
run-Whole steps w n = steps-Whole steps w (record {
  pending = [];
  finished = [];
  head_in = omega (arith, n.some_slot, n.start);
  published = n.none_published;
  count = n.no_count ∙ ap (λ p. 0 + in_pusher p) (sym n.no_push);
  room = omega (arith, n.no_count);
  slots = none_there;
  pusher = subst (PusherAt w.staging 0) (sym n.no_push) is_idle;
  writer =
      subst (λ v. WriterAt w.staging.head w.given [] v []) (sym n.no_write) (rests n.none_given);
  accepted = n.none_accepted;
})
