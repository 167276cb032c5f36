-- ===== src/Recorder/Budget.antt =====
-- A topic's buffers beside the budget of its queue.
use perception_pipeline.Recorder.{with_spares, start, Recorder}
use perception_pipeline.Recorder.Steps.{
  initial, run, Step, left, empty, to_recycle, to_write, Hand, World,
}
use perception_pipeline.Prelude.{
  some-injective, some, ap, subst, ◌≢◌, true, false, List, [], arith, ℕ, ◌+◌, ◌<◌, ◌^◌, ◌≡◌, ◌≤◌,
}
use perception_pipeline.Recorder.Buffers.{count_topic, in_hand, Balanced, run-Balanced}

-- A recorder before start: no message, and no buffer yet.
pub record IsIdle (r : Recorder) : Type 0 where
  pub not_started : r.started ≡ false
  pub no_queue : r.queue ≡ []
  pub depths :
      (i : ℕ)
      → i < r.topic_count
      → ((r.topics i).queued ≡ 0)
        × (((r.topics i).spare ≡ 0) × ((1 ≤ (r.topics i).depth) × ((r.topics i).depth < 2 ^ 32)))

-- One to which a topic has been added.
pub record IsFresh (r : Recorder) : Type 0 where
  pub idle : IsIdle r
  pub some_topic : r.topic_count ≢ 0

initial-Balanced :
    (r : Recorder) {s : Recorder} (i : ℕ)
    → IsFresh r
    → start r ≡ some s
    → i < r.topic_count
    → Balanced i (initial s)
unfolding start
initial-Balanced r {s} i h e l =
    let go : r.started ≡ false = h.idle.not_started in
    let (queued, (spare, (one, small))) = h.idle.depths i l in
    let q : count_topic i r.queue ≡ 0 = ap (count_topic i) h.idle.no_queue in
    let here : some (record r { topics = with_spares r; started = true; running = true }) ≡ some s =
      ground (arith, e, go, h.some_topic) in
    subst (λ t. Balanced i (initial t)) (some-injective here)
      (record {
        all = ground (arith, l, queued, spare);
        room = ground (arith, l, queued, spare);
        counted = ground (arith, l, queued, q);
        small = ground (arith, l, small);
      })

-- What one pusher at a time finds of a topic's pool.
pub record NeverShort (i : ℕ) (w : World) : Type 0 where
  pub spare_left :
      w.encoding i ≡ false
      → (w.recorder.topics i).queued < (w.recorder.topics i).depth
      → 1 ≤ (w.recorder.topics i).spare
  pub budget : (w.recorder.topics i).queued ≤ (w.recorder.topics i).depth
  pub pool : (w.recorder.topics i).spare ≤ (w.recorder.topics i).depth + 1
  pub counted : (w.recorder.topics i).queued ≡ count_topic i w.recorder.queue

hand-small : (i : ℕ) (hand : Hand) → in_hand i hand ≤ 1
hand-small i empty = omega arith
hand-small i left = omega arith
hand-small i (to_write m) = ground arith
hand-small i (to_recycle m) = ground arith

-- In every run of the threads around a recorder, from its start with fresh topics of depths below 2 ^ 32
-- and with one pusher for each topic: whenever the queue's budget lets a push through, the
-- topic's pool has a spare buffer, so that take_spare drops a message for the budget or for close
-- only; the topic's messages in the queue are as many as it counts, and no more than its depth.
pub run-NeverShort :
    (r : Recorder) {s : Recorder} (steps : List Step) (i : ℕ)
    → IsFresh r
    → start r ≡ some s
    → i < r.topic_count
    → NeverShort i (run steps (initial s))
run-NeverShort r {s} steps i h e l =
    let w = run steps (initial s) in
    let b = run-Balanced steps (initial s) i (initial-Balanced r i h e l) in
    let k = hand-small i w.hand in
    record {
      spare_left = λ f g. ground (arith, b.all, b.room, k, f, g);
      budget = ground (arith, b.room);
      pool = ground (arith, b.all);
      counted = b.counted;
    }
