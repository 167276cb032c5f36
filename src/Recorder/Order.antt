-- ===== src/Recorder/Order.antt =====
-- Which messages reach the file, and in which order.
use perception_pipeline.Recorder.Buffers.{count_topic-append, count_topic}
use perception_pipeline.Recorder.{
  recycle, pop, close, Recorder, drained, nothing, enqueue, pop_from, write_message, Out,
  take_spare, Message,
}
use perception_pipeline.Recorder.Steps.{
  initial, run, hand_back, take_up, step, Step, call_close, take_message, give_back, put_message,
  begin_push, end_push, hand_of, put_down, end, left, empty, to_recycle, to_write, Hand, World,
  begin,
}
use perception_pipeline.Prelude.{
  length, Bool, List, [], ap, append-nil, append_assoc, arith, false, if◌then◌else◌, refl, sym,
  true, ℕ, ◌%◌, ◌&&◌, ◌++◌, ◌+◌, ◌==◌, ◌^◌, ◌∙◌, ◌∷◌, ◌≡◌,
}

-- The messages that the writer thread holds and has not written yet.
abbrev pub unwritten : Hand → List Message
unwritten empty = []
unwritten left = []
unwritten (to_write m) = m ∷ []
unwritten (to_recycle m) = []

abbrev pub messages : List (Message × Bool) → List Message
messages [] = []
messages ((m, fine) ∷ ms) = m ∷ messages ms

-- What the library has to be given of a message behind `earlier` ones.
abbrev pub out_of : (ℕ → ℕ) → List (Message × Bool) → Message → Out
out_of channel earlier m = record {
  channel_id = channel m.topic;
  sequence = count_topic m.topic (messages earlier) % 2 ^ 32;
  log_time = m.timestamp_ns;
  publish_time = m.timestamp_ns;
  content = m.cdr;
}

abbrev pub outs : (ℕ → ℕ) → List (Message × Bool) → List (Message × Bool) → List (Out × Bool)
outs channel earlier [] = []
outs channel earlier ((m, fine) ∷ ms) =
    (out_of channel earlier m, fine) ∷ outs channel (earlier ++ (m, fine) ∷ []) ms

abbrev pub count_fine : ℕ → List (Message × Bool) → ℕ
count_fine i [] = 0
count_fine i ((m, fine) ∷ ms) = (if fine && (m.topic == i) then 1 else 0) + count_fine i ms

abbrev pub octets_in : List Message → ℕ
octets_in [] = 0
octets_in (m ∷ ms) = length m.cdr + octets_in ms

-- `given` is what was written, with the library's answers.
pub record Ordered (channel : ℕ → ℕ) (w : World) : Type 0 where
  pub given : List (Message × Bool)
  pub order : w.accepted ≡ messages given ++ (unwritten w.hand ++ w.recorder.queue)
  pub file : w.file ≡ outs channel [] given
  pub channels : (i : ℕ) → (w.recorder.topics i).channel_id ≡ channel i
  pub sequences : (i : ℕ) → (w.recorder.topics i).sequence ≡ count_topic i (messages given) % 2 ^ 32
  pub written : (i : ℕ) → (w.recorder.topics i).written ≡ count_fine i given % 2 ^ 64
  pub bytes : w.recorder.bytes_in_flight ≡ octets_in w.recorder.queue % 2 ^ 64

octets_in-append :
    (ms : List Message) (m : Message) → octets_in (ms ++ m ∷ []) ≡ octets_in ms + length m.cdr
octets_in-append [] m = omega arith
octets_in-append (n ∷ ms) m = omega (arith, octets_in-append ms m)

outs-append :
    (channel : ℕ → ℕ) (earlier xs : List (Message × Bool)) (m : Message) (fine : Bool)
    → outs channel earlier (xs ++ (m, fine) ∷ [])
      ≡ outs channel earlier xs ++ (out_of channel (earlier ++ xs) m, fine) ∷ []
outs-append channel earlier [] m fine =
    ap (λ e. (out_of channel e m, fine) ∷ []) (sym (append-nil earlier))
outs-append channel earlier ((n, ok) ∷ xs) m fine =
    ap (λ ys. (out_of channel earlier n, ok) ∷ ys)
      (outs-append channel (earlier ++ (n, ok) ∷ []) xs m fine
        ∙ ap (λ e. outs channel (earlier ++ (n, ok) ∷ []) xs ++ (out_of channel e m, fine) ∷ [])
            (append_assoc earlier ((n, ok) ∷ []) xs))

count_fine-append :
    (i : ℕ) (xs : List (Message × Bool)) (m : Message) (fine : Bool)
    → count_fine i (xs ++ (m, fine) ∷ [])
      ≡ count_fine i xs + (if fine && (m.topic == i) then 1 else 0)
count_fine-append i [] m fine = omega arith
count_fine-append i ((n, ok) ∷ xs) m fine = omega (arith, count_fine-append i xs m fine)

messages-append :
    (xs : List (Message × Bool)) (m : Message) (fine : Bool)
    → messages (xs ++ (m, fine) ∷ []) ≡ messages xs ++ m ∷ []
messages-append [] m fine = refl
messages-append ((n, ok) ∷ xs) m fine = ap (λ ys. n ∷ ys) (messages-append xs m fine)

module _ (channel : ℕ → ℕ) where
  begin-Ordered : (w : World) (j : ℕ) → Ordered channel w → Ordered channel (begin w j)
  unfolding begin take_spare
  begin-Ordered w j h = record {
    given = h.given;
    order = ground (arith, h.order);
    file = ground (arith, h.file);
    channels = λ i. ground (arith, h.channels i, h.channels j);
    sequences = λ i. ground (arith, h.sequences i, h.sequences j);
    written = λ i. ground (arith, h.written i, h.written j);
    bytes = ground (arith, h.bytes);
  }

  end-Ordered :
      (w : World) (j timestamp_ns : ℕ) (cdr : List ℕ)
      → Ordered channel w
      → Ordered channel (end w j timestamp_ns cdr)
  unfolding end enqueue
  end-Ordered w j t cdr h =
      let m : Message = record { topic = j; timestamp_ns = t; cdr = cdr } in
      let before = messages h.given in
      let longer : w.accepted ++ m ∷ []
          ≡ before ++ (unwritten w.hand ++ (w.recorder.queue ++ m ∷ [])) =
        ap (λ xs. xs ++ m ∷ []) h.order
        ∙ (append_assoc before (unwritten w.hand ++ w.recorder.queue) (m ∷ [])
            ∙ ap (λ xs. before ++ xs)
                (append_assoc (unwritten w.hand) w.recorder.queue (m ∷ []))) in
      record {
        given = h.given;
        order = ground (arith, h.order, longer);
        file = ground (arith, h.file);
        channels = λ i. ground (arith, h.channels i, h.channels j);
        sequences = λ i. ground (arith, h.sequences i, h.sequences j);
        written = λ i. ground (arith, h.written i, h.written j);
        bytes = ground (arith, h.bytes, octets_in-append w.recorder.queue m);
      }

  pop_from-Ordered :
      (w : World) (queue : List Message)
      → w.recorder.queue ≡ queue
      → w.hand ≡ empty
      → Ordered channel w
      → Ordered channel (record w {
        recorder = (pop_from w.recorder queue).recorder;
        hand = hand_of (pop_from w.recorder queue).found;
      })
  pop_from-Ordered w [] e f h =
      let same : w.accepted ≡ messages h.given ++ w.recorder.queue =
        h.order ∙ ap (λ k. messages h.given ++ (unwritten k ++ w.recorder.queue)) f in
      elim (w.recorder.running)
        as (λ t. Ordered channel (record w { hand = hand_of (if t then nothing else drained) })) [
          | true ↦ record {
            given = h.given;
            order = same;
            file = h.file;
            channels = h.channels;
            sequences = h.sequences;
            written = h.written;
            bytes = h.bytes;
          }
          | false ↦ record {
            given = h.given;
            order = same;
            file = h.file;
            channels = h.channels;
            sequences = h.sequences;
            written = h.written;
            bytes = h.bytes;
          }
        ]
  pop_from-Ordered w (m ∷ queue) e f h = record {
    given = h.given;
    order =
        h.order
        ∙ (ap (λ k. messages h.given ++ (unwritten k ++ w.recorder.queue)) f
            ∙ ap (λ q. messages h.given ++ q) e);
    file = h.file;
    channels = λ i. ground (arith, h.channels i, h.channels m.topic);
    sequences = λ i. ground (arith, h.sequences i, h.sequences m.topic);
    written = λ i. ground (arith, h.written i, h.written m.topic);
    bytes = omega (arith, h.bytes, ap octets_in e);
  }

  put_down-Ordered :
      (w : World) (fine : Bool) (m : Message)
      → w.hand ≡ to_write m
      → Ordered channel w
      → Ordered channel (put_down w fine (to_write m))
  unfolding write_message
  put_down-Ordered w fine m e h =
      let more = messages-append h.given m fine in
      let put : (w.recorder.topics m.topic).channel_id ≡ channel m.topic = h.channels m.topic in
      let seq = h.sequences m.topic in
      let moved : w.accepted ≡ messages (h.given ++ (m, fine) ∷ []) ++ w.recorder.queue =
        h.order
        ∙ (ap (λ k. messages h.given ++ (unwritten k ++ w.recorder.queue)) e
            ∙ (sym (append_assoc (messages h.given) (m ∷ []) w.recorder.queue)
                ∙ ap (λ xs. xs ++ w.recorder.queue) (sym more))) in
      record {
        given = h.given ++ (m, fine) ∷ [];
        order = ground (arith, moved);
        file = rw put (rw seq (rw h.file (sym (outs-append channel [] h.given m fine))));
        channels = λ i. ground (arith, h.channels i, h.channels m.topic);
        sequences = λ i. ground (
          arith,
          h.sequences i,
          seq,
          count_topic-append i (messages h.given) (m ∷ []),
          ap (count_topic i) more,
        );
        written =
            λ i. ground (arith, h.written i, h.written m.topic, count_fine-append i h.given m fine);
        bytes = ground (arith, h.bytes);
      }

  put_message-Ordered :
      (w : World) (fine : Bool) (hand : Hand)
      → w.hand ≡ hand
      → Ordered channel w
      → Ordered channel (put_down w fine hand)
  put_message-Ordered w fine empty e h = h
  put_message-Ordered w fine left e h = h
  put_message-Ordered w fine (to_recycle m) e h = h
  put_message-Ordered w fine (to_write m) e h = put_down-Ordered w fine m e h

  take_message-Ordered :
      (w : World) (hand : Hand)
      → w.hand ≡ hand
      → Ordered channel w
      → Ordered channel (take_up w hand)
  unfolding pop
  take_message-Ordered w empty e h = pop_from-Ordered w w.recorder.queue refl e h
  take_message-Ordered w left e h = h
  take_message-Ordered w (to_write m) e h = h
  take_message-Ordered w (to_recycle m) e h = h

  give_back-Ordered :
      (w : World) (hand : Hand)
      → w.hand ≡ hand
      → Ordered channel w
      → Ordered channel (hand_back w hand)
  unfolding recycle
  give_back-Ordered w empty e h = h
  give_back-Ordered w left e h = h
  give_back-Ordered w (to_write m) e h = h
  give_back-Ordered w (to_recycle m) e h = record {
    given = h.given;
    order = h.order ∙ ap (λ k. messages h.given ++ (unwritten k ++ w.recorder.queue)) e;
    file = h.file;
    channels = λ i. ground (arith, h.channels i, h.channels m.topic);
    sequences = λ i. ground (arith, h.sequences i, h.sequences m.topic);
    written = λ i. ground (arith, h.written i, h.written m.topic);
    bytes = h.bytes;
  }

  close-Ordered :
      (w : World) → Ordered channel w → Ordered channel (record w { recorder = close w.recorder })
  unfolding close
  close-Ordered w h = record {
    given = h.given;
    order = ground (arith, h.order);
    file = ground (arith, h.file);
    channels = λ i. ground (arith, h.channels i);
    sequences = λ i. ground (arith, h.sequences i);
    written = λ i. ground (arith, h.written i);
    bytes = ground (arith, h.bytes);
  }

  step-Ordered : (s : Step) (w : World) → Ordered channel w → Ordered channel (step s w)
  unfolding step
  step-Ordered (begin_push j) w h = begin-Ordered w j h
  step-Ordered (end_push j t cdr) w h = end-Ordered w j t cdr h
  step-Ordered take_message w h = take_message-Ordered w w.hand refl h
  step-Ordered (put_message fine) w h = put_message-Ordered w fine w.hand refl h
  step-Ordered give_back w h = give_back-Ordered w w.hand refl h
  step-Ordered call_close w h = close-Ordered w h

  pub run-Ordered_from :
      (steps : List Step) (w : World) → Ordered channel w → Ordered channel (run steps w)
  run-Ordered_from [] w h = h
  run-Ordered_from (s ∷ steps) w h = run-Ordered_from steps (step s w) (step-Ordered s w h)

-- A recorder that has written nothing yet.
pub record IsUnused (r : Recorder) : Type 0 where
  pub no_queue : r.queue ≡ []
  pub no_sequence : (i : ℕ) → (r.topics i).sequence ≡ 0
  pub none_written : (i : ℕ) → (r.topics i).written ≡ 0
  pub no_bytes : r.bytes_in_flight ≡ 0

-- In every run of the threads around a recorder that has written nothing at first: the messages whose push
-- returned true are, in the order in which they were accepted, those that the library was given,
-- then the one in the writer thread's hand, then the queue; the library was given them with their
-- topic's channel, both times their stamp, and the number of the topic's earlier ones as sequence, below
-- 2 ^ 32; a topic's written counts, below 2 ^ 64, the writes that the library called fine; and
-- bytes_in_flight is, below 2 ^ 64, the length of the queued messages together.
pub run-Ordered :
    (r : Recorder) (steps : List Step)
    → IsUnused r
    → Ordered (λ i. (r.topics i).channel_id) (run steps (initial r))
run-Ordered r steps h =
    run-Ordered_from (λ i. (r.topics i).channel_id) steps (initial r)
      (record {
        given = [];
        order = sym h.no_queue;
        file = refl;
        channels = λ i. refl;
        sequences = λ i. omega (arith, h.no_sequence i);
        written = λ i. omega (arith, h.none_written i);
        bytes = omega (arith, h.no_bytes, ap octets_in h.no_queue);
      })
