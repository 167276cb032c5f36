-- ===== src/Recorder/Tests.antt =====
-- A recorder of two topics, and an instance of each theorem.
use perception_pipeline.Recorder.Budget.{run-NeverShort, IsIdle, IsFresh, NeverShort}
use perception_pipeline.Recorder.Steps.{
  empty, call_close, initial, end_push, run, begin_push, step, Step,
}
use perception_pipeline.Recorder.Drain.{rounds-Drained, rounds, Drained}
use perception_pipeline.Recorder.{
  enqueue, take_spare, with_spares, update, Declared, Recorder, start, TopicState, add_topic,
}
use perception_pipeline.Recorder.Depths.{add_topic-WithinBudget, WithinBudget}
use perception_pipeline.Recorder.Order.{run-Ordered, IsUnused, Ordered}
use perception_pipeline.Prelude.{List, [], arith, false, length, refl, some, true, ℕ, ◌∷◌, ◌≡◌}

abbrev declared : ℕ → Declared
declared k = record {
  name = k ∷ [];
  type = 1 ∷ [];
  schema = 2 ∷ [];
  max_message_bytes = 100;
  queue_depth = 0;
}

abbrev blank : TopicState
blank = record {
  declared = declared 0;
  channel_id = 0;
  sequence = 0;
  depth = 0;
  queued = 0;
  spare = 0;
  written = 0;
  drops = 0;
  peak = 0;
}

abbrev fresh : Recorder
fresh = record {
  topics = λ i. blank;
  topic_count = 0;
  schemas = [];
  queue = [];
  bytes_in_flight = 0;
  bytes_in_flight_peak = 0;
  bytes_written = 0;
  started = false;
  running = false;
  closed = false;
}

abbrev first_topic : TopicState
first_topic = record blank { declared = declared 7; channel_id = 40; depth = 2 }

-- One topic, whose budget of 250 octets leaves room for two messages.
abbrev one_topic : Recorder
one_topic = record fresh {
  topics = update (λ i. blank) 0 first_topic;
  topic_count = 1;
  schemas = record { type = 1 ∷ []; text = 2 ∷ []; id = 3 } ∷ [];
}

add_topic-depth : add_topic fresh (declared 7) 3 40 8 250 ≡ some one_topic
unfolding add_topic
add_topic-depth = refl

fresh-IsIdle : IsIdle fresh
fresh-IsIdle = record {
  not_started = refl;
  no_queue = refl;
  depths = λ i l. absurd (omega (arith, l));
}

add_topic-WithinBudget_example : WithinBudget (declared 7) 250 2 × IsFresh one_topic
add_topic-WithinBudget_example =
    add_topic-WithinBudget fresh (declared 7) 3 40 8 250 fresh-IsIdle (omega arith) (omega arith)
      add_topic-depth

one_topic-IsFresh : IsFresh one_topic
one_topic-IsFresh = add_topic-WithinBudget_example.1

abbrev running_one : Recorder
running_one = record one_topic { topics = with_spares one_topic; started = true; running = true }

start-spares : start one_topic ≡ some running_one
unfolding start
start-spares = refl

-- Two messages fill the budget, the third push is dropped, and close finds two messages.
abbrev steps : List Step
steps =
    begin_push 0
    ∷ end_push 0 10 (5 ∷ [])
    ∷ begin_push 0
    ∷ end_push 0 11 (6 ∷ [])
    ∷ begin_push 0
    ∷ call_close
    ∷ []

full_queue : length (run steps (initial running_one)).recorder.queue ≡ 2
unfolding step take_spare enqueue
full_queue = refl

dropped : ((run steps (initial running_one)).recorder.topics 0).drops ≡ 1
unfolding step take_spare enqueue
dropped = refl

run-NeverShort_example : NeverShort 0 (run steps (initial running_one))
run-NeverShort_example =
    run-NeverShort one_topic steps 0 one_topic-IsFresh start-spares (omega arith)

one_topic-IsUnused : IsUnused running_one
one_topic-IsUnused = record {
  no_queue = refl;
  no_sequence = λ i. ground arith;
  none_written = λ i. ground arith;
  no_bytes = refl;
}

run-Ordered_example :
    Ordered (λ i. (running_one.topics i).channel_id) (run steps (initial running_one))
run-Ordered_example = run-Ordered running_one steps one_topic-IsUnused

stopped_now : (run steps (initial running_one)).recorder.running ≡ false
unfolding step take_spare enqueue
stopped_now = refl

idle_now : (run steps (initial running_one)).hand ≡ empty
unfolding step take_spare enqueue
idle_now = refl

rounds-Drained_example :
    Drained
      (λ i. (running_one.topics i).channel_id)
      (run steps (initial running_one)).accepted
      (run (rounds (true ∷ false ∷ true ∷ [])) (run steps (initial running_one)))
rounds-Drained_example =
    rounds-Drained running_one steps (true ∷ false ∷ true ∷ []) one_topic-IsUnused stopped_now
      idle_now (omega (arith, full_queue))
