-- ===== src/Recorder.antt =====
-- recording/src/mcap_recorder.cpp: messages of several topics, through one queue to the thread that writes
-- the file. The MCAP library gives ids and the status of a write; a cleared buffer is one of a number.
pub mod Steps
pub mod Buffers
pub mod Budget
pub mod Order
pub mod Drain
pub mod Depths
mod Tests
use perception_pipeline.Prelude.{
  same_text, Bool, List, Option, [], add64, dec32, false, if◌then◌else◌, inc32, inc64, leb, length,
  ltb, max, min, none, not, some, sub64, suc, true, zero, ℕ, ◌%◌, ◌++◌, ◌+◌, ◌-◌, ◌/◌, ◌==◌, ◌^◌,
  ◌||◌, ◌∷◌,
}

-- What a topic declares: its texts are octets.
pub record Declared : Type 0 where
  pub name : List ℕ
  pub type : List ℕ
  pub schema : List ℕ
  pub max_message_bytes : ℕ
  pub queue_depth : ℕ

pub record TopicState : Type 0 where
  pub declared : Declared
  pub channel_id : ℕ
  pub sequence : ℕ
  pub depth : ℕ
  pub queued : ℕ
  pub spare : ℕ
  pub written : ℕ
  pub drops : ℕ
  pub peak : ℕ

-- A queued message.
pub record Message : Type 0 where
  pub topic : ℕ
  pub timestamp_ns : ℕ
  pub cdr : List ℕ

pub record Schema : Type 0 where
  pub type : List ℕ
  pub text : List ℕ
  pub id : ℕ

-- topics is topics_ below topic_count, its size.
pub record Recorder : Type 0 where
  pub topics : ℕ → TopicState
  pub topic_count : ℕ
  pub schemas : List Schema
  pub queue : List Message
  pub bytes_in_flight : ℕ
  pub bytes_in_flight_peak : ℕ
  pub bytes_written : ℕ
  pub started : Bool
  pub running : Bool
  pub closed : Bool

abbrev pub update : (ℕ → TopicState) → ℕ → TopicState → ℕ → TopicState
update topics i state j = if j == i then state else topics j

abbrev pub with_topic : Recorder → ℕ → TopicState → Recorder
with_topic r i state = record r { topics = update r.topics i state }

abbrev pub count_drop : Recorder → ℕ → Recorder
count_drop r i = with_topic r i (record (r.topics i) { drops = inc64 (r.topics i).drops })

-- `wanted` is the ceiling of rate_hz * buffer_seconds, as a uint32; `budget` is topic_memory_mb in bytes.
unfoldable pub resolved_depth : Declared → ℕ → ℕ → ℕ
resolved_depth topic wanted budget =
    if ltb 0 topic.queue_depth
    then topic.queue_depth
    else max 1 (min (max wanted 4) (budget / topic.max_message_bytes % 2 ^ 32))

abbrev pub known_schema : List Schema → List ℕ → Option Schema
known_schema [] type = none
known_schema (s ∷ schemas) type =
    let later = known_schema schemas type in if same_text s.type type then some s else later

abbrev pub new_topic : Declared → ℕ → ℕ → ℕ → TopicState
new_topic topic channel_id wanted budget = record {
  declared = topic;
  channel_id = channel_id;
  sequence = 0;
  depth = resolved_depth topic wanted budget;
  queued = 0;
  spare = 0;
  written = 0;
  drops = 0;
  peak = 0;
}

abbrev pub add_state : Recorder → List Schema → TopicState → Recorder
add_state r schemas state = record r {
  schemas = schemas;
  topics = update r.topics r.topic_count state;
  topic_count = r.topic_count + 1;
}

-- A known type needs the same text; a new one gets the library's `schema_id`.
abbrev pub schemas_with : List Schema → Declared → ℕ → Option Schema → Option (List Schema)
schemas_with schemas topic schema_id none =
    some (schemas ++ record { type = topic.type; text = topic.schema; id = schema_id } ∷ [])
schemas_with schemas topic schema_id (some known) =
    if same_text known.text topic.schema then some schemas else none

abbrev pub add_with : Recorder → TopicState → Option (List Schema) → Option Recorder
add_with r state none = none
add_with r state (some schemas) = some (add_state r schemas state)

-- None stands for the exceptions.
unfoldable pub add_topic : Recorder → Declared → ℕ → ℕ → ℕ → ℕ → Option Recorder
unfolding resolved_depth
add_topic r topic schema_id channel_id wanted budget =
    if r.started || topic.max_message_bytes == 0
    then none
    else add_with r (new_topic topic channel_id wanted budget)
        (schemas_with r.schemas topic schema_id (known_schema r.schemas topic.type))

-- The loop of start over the topics: spare buffers.
abbrev pub with_spares : Recorder → ℕ → TopicState
with_spares r i = record (r.topics i) {
  spare =
      if ltb i r.topic_count
      then (r.topics i).spare + ((r.topics i).depth + 1)
      else (r.topics i).spare;
}

unfoldable pub start : Recorder → Option Recorder
start r =
    if r.started
    then some r
    else if r.topic_count == 0
    then none
    else some (record r { topics = with_spares r; started = true; running = true })

pub record Taken : Type 0 where
  pub recorder : Recorder
  pub taken : Bool

unfoldable pub take_spare : Recorder → ℕ → Taken
take_spare r topic =
    let state = r.topics topic in
    if not (ltb topic r.topic_count)
    then record { recorder = r; taken = false }
    else if not r.running || leb state.depth state.queued
    then record { recorder = count_drop r topic; taken = false }
    else if state.spare == 0
    then record { recorder = count_drop r topic; taken = false }
    else record {
      recorder = with_topic r topic (record state { spare = state.spare - 1 });
      taken = true;
    }

-- The buffer of a late message goes back.
abbrev pub turn_away : Recorder → ℕ → Recorder
turn_away r topic =
    let state = r.topics topic in
    with_topic r topic (record state { drops = inc64 state.drops; spare = state.spare + 1 })

abbrev pub append : Recorder → ℕ → ℕ → List ℕ → Recorder
append r topic timestamp_ns cdr =
    let state = r.topics topic in
    let queued = inc32 state.queued in
    let bytes = add64 r.bytes_in_flight (length cdr) in
    record r {
      bytes_in_flight = bytes;
      bytes_in_flight_peak = max bytes r.bytes_in_flight_peak;
      queue = r.queue ++ record { topic = topic; timestamp_ns = timestamp_ns; cdr = cdr } ∷ [];
      topics =
          update r.topics topic (record state { queued = queued; peak = max queued state.peak });
    }

unfoldable pub enqueue : Recorder → ℕ → ℕ → List ℕ → Taken
enqueue r topic timestamp_ns cdr =
    if not r.running
    then record { recorder = turn_away r topic; taken = false }
    else record { recorder = append r topic timestamp_ns cdr; taken = true }

unfoldable pub recycle : Recorder → ℕ → Recorder
recycle r topic =
    let state = r.topics topic in with_topic r topic (record state { spare = state.spare + 1 })

-- What the writer thread finds in its critical section.
pub data Found : Type 0 where
  drained nothing : Found
  popped : Message → Found

pub record Round : Type 0 where
  pub recorder : Recorder
  pub found : Found

abbrev pub pop_from : Recorder → List Message → Round
pop_from r [] = record { recorder = r; found = if r.running then nothing else drained }
pop_from r (m ∷ queue) =
    let state = r.topics m.topic in
    record {
      recorder = record r {
        queue = queue;
        bytes_in_flight = sub64 r.bytes_in_flight (length m.cdr % 2 ^ 64);
        topics = update r.topics m.topic (record state { queued = dec32 state.queued });
      };
      found = popped m;
    }

unfoldable pub pop : Recorder → Round
pop r = pop_from r r.queue

-- What the library is given to write.
pub record Out : Type 0 where
  pub channel_id : ℕ
  pub sequence : ℕ
  pub log_time : ℕ
  pub publish_time : ℕ
  pub content : List ℕ

pub record Wrote : Type 0 where
  pub recorder : Recorder
  pub out : Out

-- `fine` is the library's answer.
unfoldable pub write_message : Recorder → Message → Bool → Wrote
write_message r m fine =
    let state = r.topics m.topic in
    let counted = record state { sequence = inc32 state.sequence } in
    record {
      out = record {
        channel_id = state.channel_id;
        sequence = state.sequence;
        log_time = m.timestamp_ns;
        publish_time = m.timestamp_ns;
        content = m.cdr;
      };
      recorder =
          if fine
          then record r {
            topics = update r.topics m.topic (record counted { written = inc64 state.written });
            bytes_written = add64 r.bytes_written (length m.cdr);
          }
          else with_topic r m.topic (record counted { drops = inc64 state.drops });
    }

-- The flags that close sets before it waits for the thread.
unfoldable pub close : Recorder → Recorder
close r = if r.closed then r else record r { closed = true; running = false }

abbrev pub sum_over : ℕ → (ℕ → ℕ) → ℕ
sum_over zero f = 0
sum_over (suc n) f = add64 (sum_over n f) (f n)

unfoldable pub written : Recorder → ℕ
written r = sum_over r.topic_count (λ i. (r.topics i).written)

unfoldable pub drops : Recorder → ℕ
drops r = sum_over r.topic_count (λ i. (r.topics i).drops)
