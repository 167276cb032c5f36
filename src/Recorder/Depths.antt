-- ===== src/Recorder/Depths.antt =====
-- The depth of a topic's queue, and what add_topic keeps.

use perception_pipeline.Recorder.Budget.{IsFresh, IsIdle}
use perception_pipeline.Recorder.{
  update, known_schema, schemas_with, new_topic, add_with, Schema, TopicState, add_topic, Recorder,
  resolved_depth, Declared,
}
use native.Mathlib.Nat.{div-mul-le_self, mul-le-mul_right}
use perception_pipeline.Prelude.{
  List, Option, arith, false, if◌then◌else◌, max, min, none, refl, some, some-injective, subst, suc,
  true, zero, ℕ, ◌%◌, ◌*◌, ◌+◌, ◌/◌, ◌<◌, ◌==◌, ◌^◌, ◌||◌, ◌≡◌, ◌≢◌, ◌≤◌,
}

-- Without a declared depth, the buffers of a queue stay within the budget, as far as one message does.
pub record WithinBudget (topic : Declared) (budget depth : ℕ) : Type 0 where
  pub bytes :
      topic.queue_depth ≡ 0 → depth * topic.max_message_bytes ≤ max budget topic.max_message_bytes
  pub asked : topic.queue_depth ≢ 0 → depth ≡ topic.queue_depth
  pub at_least : 1 ≤ depth
  pub word : depth < 2 ^ 32

capped_by : (cap size budget : ℕ) → cap * size ≤ budget → max 1 cap * size ≤ max budget size
capped_by zero size budget h = omega arith
capped_by (suc zero) size budget h = omega arith
capped_by (suc (suc cap)) size budget h =
    let same : max 1 (suc (suc cap)) ≡ suc (suc cap) = omega arith in
    let here : suc (suc cap) * size ≤ max budget size = omega (arith, h) in rw same here

capped :
    (wanted budget size : ℕ)
    → max 1 (min (max wanted 4) (budget / size % 2 ^ 32)) * size ≤ max budget size
capped wanted budget size =
    let cap = min (max wanted 4) (budget / size % 2 ^ 32) in
    let small : cap ≤ budget / size = omega arith in
    let below = div-mul-le_self budget size in
    let scaled : cap * size ≤ budget / size * size = mul-le-mul_right size small in
    capped_by cap size budget (omega (arith, below, scaled))

resolved_depth-WithinBudget :
    (topic : Declared) (wanted budget : ℕ)
    → topic.queue_depth < 2 ^ 32
    → wanted < 2 ^ 32
    → WithinBudget topic budget (resolved_depth topic wanted budget)
unfolding resolved_depth
resolved_depth-WithinBudget topic wanted budget q l =
    let c = capped wanted budget topic.max_message_bytes in
    record {
      bytes = λ e. ground (arith, e, c);
      asked = λ e. ground (arith, e);
      at_least = ground arith;
      word = ground (arith, q, l);
    }

one_more :
    (r : Recorder) (state : TopicState) (i : ℕ) {topic : Declared} {budget : ℕ}
    → IsIdle r
    → WithinBudget topic budget state.depth
    → state.queued ≡ 0
    → state.spare ≡ 0
    → i < r.topic_count + 1
    → ((update r.topics r.topic_count state i).queued ≡ 0)
      × (((update r.topics r.topic_count state i).spare ≡ 0)
          × ((1 ≤ (update r.topics r.topic_count state i).depth)
              × ((update r.topics r.topic_count state i).depth < 2 ^ 32)))
one_more r state i h d q p l =
    elim (i == r.topic_count)
        as (λ t.
          (i == r.topic_count) ≡ t
          → ((if t then state else r.topics i).queued ≡ 0)
            × (((if t then state else r.topics i).spare ≡ 0)
                × ((1 ≤ (if t then state else r.topics i).depth)
                    × ((if t then state else r.topics i).depth < 2 ^ 32)))) [
                      | true ↦ λ e. (q, (p, (d.at_least, d.word)))
                      | false ↦ λ e. h.depths i (ground (arith, e, l))
                    ]
      refl

added :
    (r : Recorder) (topic : Declared) (budget : ℕ) (state : TopicState)
    (schemas : Option (List Schema)) {s : Recorder}
    → IsIdle r
    → WithinBudget topic budget state.depth
    → state.queued ≡ 0
    → state.spare ≡ 0
    → add_with r state schemas ≡ some s
    → WithinBudget topic budget (s.topics r.topic_count).depth × IsFresh s
added r topic budget state none h d q p e = absurd (ground (arith, e))
added r topic budget state (some schemas) h d q p e =
    let same : (r.topic_count == r.topic_count) ≡ true = ground arith in
    subst (λ t. WithinBudget topic budget (t.topics r.topic_count).depth × IsFresh t)
      (some-injective e)
      (
        subst (WithinBudget topic budget) (ground (arith, same)) d,
        record {
          idle = record {
            not_started = h.not_started;
            no_queue = h.no_queue;
            depths = λ i l. one_more r state i h d q p l;
          };
          some_topic = λ k. absurd (omega (arith, k));
        },
      )

-- Every topic that add_topic accepts, for a recorder before start, whose declared queue_depth and whose
-- wanted depth are 32-bit numbers, gets a depth of at least 1 and below 2 ^ 32. A declared queue_depth is
-- taken as it is, whatever the budget; without one, as many messages of the largest size as the depth says fit
-- the larger of the budget and one such message. The recorder is still one before start, with a topic.
pub add_topic-WithinBudget :
    (r : Recorder) (topic : Declared) (schema_id channel_id wanted budget : ℕ) {s : Recorder}
    → IsIdle r
    → topic.queue_depth < 2 ^ 32
    → wanted < 2 ^ 32
    → add_topic r topic schema_id channel_id wanted budget ≡ some s
    → WithinBudget topic budget (s.topics r.topic_count).depth × IsFresh s
unfolding add_topic
add_topic-WithinBudget r topic schema_id channel_id wanted budget {s} h q l e =
    let d = resolved_depth-WithinBudget topic wanted budget q l in
    elim (r.started || topic.max_message_bytes == 0)
        as (λ t.
          (if t
              then none
              else add_with r (new_topic topic channel_id wanted budget)
                  (schemas_with r.schemas topic schema_id (known_schema r.schemas topic.type)))
            ≡ some s
          → WithinBudget topic budget (s.topics r.topic_count).depth × IsFresh s) [
            | true ↦ λ k. absurd (ground (arith, k))
            | false ↦ λ k.
                added r topic budget (new_topic topic channel_id wanted budget) _ h d refl refl k
          ]
      e
