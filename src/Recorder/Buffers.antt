-- ===== src/Recorder/Buffers.antt =====
-- Where a topic's depth + 1 buffers are.
use perception_pipeline.Recorder.{
  pop, recycle, close, write_message, drained, nothing, enqueue, pop_from, take_spare, Message,
}
use perception_pipeline.Recorder.Steps.{
  call_close, give_back, take_message, put_message, end_push, begin_push, take_up, run, hand_back,
  put_down, step, Step, hand_of, end, left, empty, to_recycle, to_write, Hand, World, begin,
}
use perception_pipeline.Prelude.{
  ◌∙◌, refl, ap, subst, true, false, ◌++◌, Bool, List, [], arith, if◌then◌else◌, ℕ, ◌+◌, ◌<◌, ◌==◌,
  ◌^◌, ◌∷◌, ◌≡◌, ◌≤◌,
}

abbrev pub count_topic : ℕ → List Message → ℕ
count_topic i [] = 0
count_topic i (m ∷ ms) = (if m.topic == i then 1 else 0) + count_topic i ms

abbrev pub in_hand : ℕ → Hand → ℕ
in_hand i empty = 0
in_hand i left = 0
in_hand i (to_write m) = if m.topic == i then 1 else 0
in_hand i (to_recycle m) = if m.topic == i then 1 else 0

abbrev pub with_pusher : Bool → ℕ
with_pusher b = if b then 1 else 0

-- The buffers of topic `i`: in the pool, queued, with the pusher and in the writer's hand.
pub record Balanced (i : ℕ) (w : World) : Type 0 where
  pub all :
      (w.recorder.topics i).spare
        + (w.recorder.topics i).queued
        + with_pusher (w.encoding i)
        + in_hand i w.hand
      ≡ (w.recorder.topics i).depth + 1
  pub room : (w.recorder.topics i).queued + with_pusher (w.encoding i) ≤ (w.recorder.topics i).depth
  pub counted : (w.recorder.topics i).queued ≡ count_topic i w.recorder.queue
  pub small : (w.recorder.topics i).depth < 2 ^ 32

begin-Balanced : (w : World) (i j : ℕ) → Balanced i w → Balanced i (begin w j)
unfolding begin take_spare
begin-Balanced w i j h = record {
  all = ground (arith, h.all, h.room);
  room = ground (arith, h.all, h.room);
  counted = ground (arith, h.counted);
  small = ground (arith, h.small);
}

pub count_topic-append :
    (i : ℕ) (xs ys : List Message) → count_topic i (xs ++ ys) ≡ count_topic i xs + count_topic i ys
count_topic-append i [] ys = omega arith
count_topic-append i (x ∷ xs) ys = omega (arith, count_topic-append i xs ys)

end-Balanced :
    (w : World) (i j timestamp_ns : ℕ) (cdr : List ℕ)
    → Balanced i w
    → Balanced i (end w j timestamp_ns cdr)
unfolding end enqueue
end-Balanced w i j timestamp_ns cdr h =
    let more =
      count_topic-append i w.recorder.queue
        (record { topic = j; timestamp_ns = timestamp_ns; cdr = cdr } ∷ []) in
    record {
      all = ground (arith, h.all, h.room, h.small);
      room = ground (arith, h.all, h.room, h.small);
      counted = ground (arith, h.counted, h.room, h.small, more);
      small = ground (arith, h.small);
    }

take_up-Balanced :
    (w : World) (i : ℕ) (queue : List Message)
    → w.recorder.queue ≡ queue
    → w.hand ≡ empty
    → Balanced i w
    → Balanced i (record w {
      recorder = (pop_from w.recorder queue).recorder;
      hand = hand_of (pop_from w.recorder queue).found;
    })
take_up-Balanced w i [] e f h =
    elim (w.recorder.running)
      as (λ t. Balanced i (record w { hand = hand_of (if t then nothing else drained) })) [
        | true ↦ record {
          all =
              subst
                (λ k.
                  (w.recorder.topics i).spare
                    + (w.recorder.topics i).queued
                    + with_pusher (w.encoding i)
                    + in_hand i k
                  ≡ (w.recorder.topics i).depth + 1)
                f h.all;
          room = h.room;
          counted = h.counted;
          small = h.small;
        }
        | false ↦ record {
          all =
              subst
                (λ k.
                  (w.recorder.topics i).spare
                    + (w.recorder.topics i).queued
                    + with_pusher (w.encoding i)
                    + in_hand i k
                  ≡ (w.recorder.topics i).depth + 1)
                f h.all;
          room = h.room;
          counted = h.counted;
          small = h.small;
        }
      ]
take_up-Balanced w i (m ∷ queue) e f h =
    let none_held : in_hand i w.hand ≡ 0 = ap (in_hand i) f in
    let here : (w.recorder.topics i).queued
        ≡ (if m.topic == i then 1 else 0) + count_topic i queue =
      h.counted ∙ ap (count_topic i) e in
    record {
      all = ground (arith, h.all, h.room, h.small, none_held, here);
      room = ground (arith, h.room, h.small, here);
      counted = ground (arith, h.room, h.small, here);
      small = ground (arith, h.small);
    }

module _ (w : World) (i : ℕ) (fine : Bool) where
  put_down-Balanced :
      (hand : Hand) → w.hand ≡ hand → Balanced i w → Balanced i (put_down w fine hand)
  unfolding write_message
  put_down-Balanced empty e h = h
  put_down-Balanced left e h = h
  put_down-Balanced (to_recycle m) e h = h
  put_down-Balanced (to_write m) e h =
      let held : in_hand i w.hand ≡ (if m.topic == i then 1 else 0) = ap (in_hand i) e in
      record {
        all = ground (arith, h.all, held);
        room = ground (arith, h.room);
        counted = ground (arith, h.counted);
        small = ground (arith, h.small);
      }

  hand_back-Balanced : (hand : Hand) → w.hand ≡ hand → Balanced i w → Balanced i (hand_back w hand)
  unfolding recycle
  hand_back-Balanced empty e h = h
  hand_back-Balanced left e h = h
  hand_back-Balanced (to_write m) e h = h
  hand_back-Balanced (to_recycle m) e h =
      let held : in_hand i w.hand ≡ (if m.topic == i then 1 else 0) = ap (in_hand i) e in
      record {
        all = ground (arith, h.all, held);
        room = ground (arith, h.room);
        counted = ground (arith, h.counted);
        small = ground (arith, h.small);
      }

  take_message-Balanced : (hand : Hand) → w.hand ≡ hand → Balanced i w → Balanced i (take_up w hand)
  unfolding pop
  take_message-Balanced empty e h = take_up-Balanced w i w.recorder.queue refl e h
  take_message-Balanced left e h = h
  take_message-Balanced (to_write m) e h = h
  take_message-Balanced (to_recycle m) e h = h

close-Balanced :
    (w : World) (i : ℕ) → Balanced i w → Balanced i (record w { recorder = close w.recorder })
unfolding close
close-Balanced w i h = record {
  all = ground (arith, h.all);
  room = ground (arith, h.room);
  counted = ground (arith, h.counted);
  small = ground (arith, h.small);
}

step-Balanced : (s : Step) (w : World) (i : ℕ) → Balanced i w → Balanced i (step s w)
unfolding step
step-Balanced (begin_push j) w i h = begin-Balanced w i j h
step-Balanced (end_push j t cdr) w i h = end-Balanced w i j t cdr h
step-Balanced take_message w i h = take_message-Balanced w i true w.hand refl h
step-Balanced (put_message fine) w i h = put_down-Balanced w i fine w.hand refl h
step-Balanced give_back w i h = hand_back-Balanced w i true w.hand refl h
step-Balanced call_close w i h = close-Balanced w i h

-- Of every topic, the spare buffers, the queued messages, the buffer with its pusher and the one with the
-- writer thread remain its depth + 1 buffers, its queued messages are those counted and together with
-- the pusher's one no more than its depth, in every step of the threads around a recorder: when it
-- held before, it holds after any run.
pub run-Balanced : (steps : List Step) (w : World) (i : ℕ) → Balanced i w → Balanced i (run steps w)
run-Balanced [] w i h = h
run-Balanced (s ∷ steps) w i h = run-Balanced steps (step s w) i (step-Balanced s w i h)
