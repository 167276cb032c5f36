-- ===== src/StereoPairer.antt =====
-- stereo/include/stereo_pairer.hpp and stereo/src/stereo_pairer.cpp: live pairing of two streams.
-- Each locked section is one function. Times are whole nanoseconds of a host clock, an argument;
-- a frame's bytes are the list behind `data`. Streams 0 and 1 are two `Stream` records.
pub mod Once
pub mod Accounts
mod Tests
use perception_pipeline.Prelude.{
  Bool, List, Option, [], false, if◌then◌else◌, inc64, leb, length, ltb, max, none, some, true, ℕ,
  ◌++◌, ◌-◌, ◌==◌, ◌∷◌,
}
use perception_pipeline.Prelude.Int.{ℤ, pos, nat_abs, neg}
use perception_pipeline.FramePairing.{difference, match, older_a, older_b, compare_heads}

pub record Config : Type 0 where
  pub tolerance_ns : ℕ
  pub queue_frames : ℕ
  pub hold : ℕ

pub record Entry : Type 0 where
  pub timestamp_ns : ℕ
  pub host_recv_ns : ℕ
  pub frame_id : ℕ
  pub content : List ℕ
  pub arrived : ℕ

-- A stream's queue, oldest first, its spare buffers, the entry behind the last result, and its counters.
pub record Stream : Type 0 where
  pub queue : List Entry
  pub recycled : List (List ℕ)
  pub held : Option Entry
  pub unpaired : ℕ
  pub overrun : ℕ

pub record Pairer : Type 0 where
  pub config : Config
  pub stream_a : Stream
  pub stream_b : Stream
  pub next_pair_id : ℕ
  pub paired : ℕ
  pub max_abs_skew_ns : ℕ

pub record Pair : Type 0 where
  pub pair_id : ℕ
  pub side_a : Option Entry
  pub side_b : Option Entry
  pub skew_ns : ℤ

abbrev pub empty_stream : Stream
empty_stream = record { queue = []; recycled = []; held = none; unpaired = 0; overrun = 0 }

abbrev pub empty_pairer : Config → Pairer
empty_pairer config = record {
  config = config;
  stream_a = empty_stream;
  stream_b = empty_stream;
  next_pair_id = 0;
  paired = 0;
  max_abs_skew_ns = 0;
}

-- The constructor, which throws without room for a frame.
unfoldable pub create : Config → Option Pairer
create config = if config.queue_frames == 0 then none else some (empty_pairer config)

-- The head of a full queue goes, and its buffer to the spare ones.
abbrev pub drop_oldest : Stream → List Entry → Stream
drop_oldest s [] = s
drop_oldest s (e ∷ es) = record s {
  queue = es;
  recycled = e.content ∷ s.recycled;
  overrun = inc64 s.overrun;
}

abbrev pub reuse_buffer : List (List ℕ) → List (List ℕ)
reuse_buffer [] = []
reuse_buffer (b ∷ bs) = bs

abbrev pub append_entry : Stream → Entry → Stream
append_entry s e = record s { queue = s.queue ++ e ∷ []; recycled = reuse_buffer s.recycled }

-- One stream's part of push: whether nothing was dropped, and the stream.
pub record Pushed : Type 0 where
  pub kept_all : Bool
  pub stream : Stream

unfoldable pub push_stream : Config → Stream → Entry → Pushed
push_stream config s e =
    if leb config.queue_frames (length s.queue)
    then record { kept_all = false; stream = append_entry (drop_oldest s s.queue) e }
    else record { kept_all = true; stream = append_entry s e }

pub data PushAnswer : Type 0 where
  bad_stream_id : PushAnswer
  pushed : Bool → Pairer → PushAnswer

unfoldable pub push : Pairer → ℕ → Entry → PushAnswer
unfolding push_stream
push p stream e =
    if stream == 0
    then (let r = push_stream p.config p.stream_a e in
        pushed r.kept_all (record p { stream_a = r.stream }))
    else if stream == 1
    then (let r = push_stream p.config p.stream_b e in
        pushed r.kept_all (record p { stream_b = r.stream }))
    else bad_stream_id

abbrev pub keep_buffer : Option Entry → List (List ℕ) → List (List ℕ)
keep_buffer none bs = bs
keep_buffer (some e) bs = elim e.content [ [] ↦ bs | c ∷ cs ↦ (c ∷ cs) ∷ bs ]

-- The head of the queue moves into the held slot, with `es` behind it.
abbrev pub hold_entry : Stream → Entry → List Entry → Stream
hold_entry s e es = record s { queue = es; recycled = keep_buffer s.held s.recycled; held = some e }

pub data Popped : Type 0 where
  nothing : Pairer → Popped
  popped : Pair → Pairer → Popped

unfoldable pub pop_pair : Pairer → Entry → List Entry → Entry → List Entry → Popped
unfolding difference
pop_pair p a as' b bs =
    popped
      record {
        pair_id = p.next_pair_id;
        side_a = some a;
        side_b = some b;
        skew_ns = neg (difference a.timestamp_ns b.timestamp_ns);
      }
      record p {
        stream_a = hold_entry p.stream_a a as';
        stream_b = hold_entry p.stream_b b bs;
        next_pair_id = inc64 p.next_pair_id;
        paired = inc64 p.paired;
        max_abs_skew_ns =
            max p.max_abs_skew_ns (nat_abs (neg (difference a.timestamp_ns b.timestamp_ns)));
      }

abbrev pub unpaired_one : Stream → Stream
unpaired_one s = record s { unpaired = inc64 s.unpaired }

unfoldable pub pop_single_a : Pairer → Entry → List Entry → Popped
pop_single_a p a as' =
    popped record { pair_id = p.next_pair_id; side_a = some a; side_b = none; skew_ns = pos 0 }
      record p {
        stream_a = unpaired_one (hold_entry p.stream_a a as');
        next_pair_id = inc64 p.next_pair_id;
      }

unfoldable pub pop_single_b : Pairer → Entry → List Entry → Popped
pop_single_b p b bs =
    popped record { pair_id = p.next_pair_id; side_a = none; side_b = some b; skew_ns = pos 0 }
      record p {
        stream_b = unpaired_one (hold_entry p.stream_b b bs);
        next_pair_id = inc64 p.next_pair_id;
      }

-- Both branches of the loop's body return, so that it is a test of the two heads. With one queue
-- empty, the other's head is given up on when it has waited for `hold`.
unfoldable pub pop_heads : Pairer → ℕ → List Entry → List Entry → Popped
unfolding pop_pair pop_single_a pop_single_b compare_heads
pop_heads p now [] [] = nothing p
pop_heads p now (a ∷ as') [] =
    if ltb (now - a.arrived) p.config.hold then nothing p else pop_single_a p a as'
pop_heads p now [] (b ∷ bs) =
    if ltb (now - b.arrived) p.config.hold then nothing p else pop_single_b p b bs
pop_heads p now (a ∷ as') (b ∷ bs) =
    elim (compare_heads p.config.tolerance_ns a.timestamp_ns b.timestamp_ns) [
      | match ↦ pop_pair p a as' b bs
      | older_a ↦ pop_single_a p a as'
      | older_b ↦ pop_single_b p b bs
    ]

unfoldable pub try_pop : Pairer → ℕ → Popped
unfolding pop_heads
try_pop p now = pop_heads p now p.stream_a.queue p.stream_b.queue
