-- ===== src/Recorder/Steps.antt =====
-- The threads around a recorder after start: one pusher for each topic, whose push is take_spare, the
-- encoding and enqueue, the writer thread with its run loop, and a caller of close. A critical section
-- is a step, and so is the library's write of a message.
use perception_pipeline.Recorder.{
  nothing, drained, Out, popped, close, write_message, recycle, Found, enqueue, pop, Recorder,
  Message, take_spare,
}
use perception_pipeline.Prelude.{Bool, List, [], false, if◌then◌else◌, not, ℕ, ◌++◌, ◌==◌, ◌∷◌}

-- What the writer thread has in its hand, or that it has left the loop.
pub data Hand : Type 0 where
  empty left : Hand
  to_write to_recycle : Message → Hand

-- The buffers are with a pusher that encodes, as `encoding` says for each topic. `accepted` are the
-- messages whose push returned true, and `file` what the library was given and its answers, in order.
pub record World : Type 0 where
  pub recorder : Recorder
  pub encoding : ℕ → Bool
  pub hand : Hand
  pub accepted : List Message
  pub file : List (Out × Bool)

pub data Step : Type 0 where
  begin_push : ℕ → Step
  end_push : ℕ → ℕ → List ℕ → Step
  take_message give_back call_close : Step
  put_message : Bool → Step

abbrev pub mark : (ℕ → Bool) → ℕ → Bool → ℕ → Bool
mark encoding i b j = if j == i then b else encoding j

-- A pusher that encodes begins no other push.
unfoldable pub begin : World → ℕ → World
begin w topic =
    let t = take_spare w.recorder topic in
    if w.encoding topic
    then w
    else record w { recorder = t.recorder; encoding = mark w.encoding topic t.taken }

unfoldable pub end : World → ℕ → ℕ → List ℕ → World
end w topic timestamp_ns cdr =
    let t = enqueue w.recorder topic timestamp_ns cdr in
    let message : Message = record { topic = topic; timestamp_ns = timestamp_ns; cdr = cdr } in
    if not (w.encoding topic) then w else record w {
      recorder = t.recorder;
      encoding = mark w.encoding topic false;
      accepted = if t.taken then w.accepted ++ message ∷ [] else w.accepted;
    }

abbrev pub hand_of : Found → Hand
hand_of drained = left
hand_of nothing = empty
hand_of (popped m) = to_write m

abbrev pub take_up : World → Hand → World
take_up w empty = record w {
  recorder = (pop w.recorder).recorder;
  hand = hand_of (pop w.recorder).found;
}
take_up w left = w
take_up w (to_write m) = w
take_up w (to_recycle m) = w

abbrev pub put_down : World → Bool → Hand → World
put_down w fine empty = w
put_down w fine left = w
put_down w fine (to_recycle m) = w
put_down w fine (to_write m) = record w {
  recorder = (write_message w.recorder m fine).recorder;
  hand = to_recycle m;
  file = w.file ++ ((write_message w.recorder m fine).out, fine) ∷ [];
}

abbrev pub hand_back : World → Hand → World
hand_back w empty = w
hand_back w left = w
hand_back w (to_write m) = w
hand_back w (to_recycle m) = record w { recorder = recycle w.recorder m.topic; hand = empty }

unfoldable pub step : Step → World → World
unfolding begin end pop write_message recycle close
step (begin_push topic) w = begin w topic
step (end_push topic timestamp_ns cdr) w = end w topic timestamp_ns cdr
step take_message w = take_up w w.hand
step (put_message fine) w = put_down w fine w.hand
step give_back w = hand_back w w.hand
step call_close w = record w { recorder = close w.recorder }

abbrev pub run : List Step → World → World
run [] w = w
run (s ∷ steps) w = run steps (step s w)

-- Right after start.
abbrev pub initial : Recorder → World
initial r = record { recorder = r; encoding = λ i. false; hand = empty; accepted = []; file = [] }
