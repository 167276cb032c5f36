-- ===== src/Ros/Replay/Slots.antt =====
-- ImageReplaySource: a replayed message's way into a slot of the sink. The loop of acquire_slot runs over
-- what it sees of the sink, the player and the clock, one poll a round.
pub mod Filling
pub mod Messages
use perception_pipeline.Ros.Replay.{DecodedImage, decode_image}
use perception_pipeline.Prelude.{
  Bool, List, Option, [], false, if◌then◌else◌, inc32, inc64, length, ltb, none, not, replicate,
  set, some, true, ℕ, ◌&&◌, ◌+◌, ◌||◌, ◌∷◌,
}

-- What consumed answers for each slot, player_.running(), and whether the deadline has passed.
pub record Poll : Type 0 where
  pub consumed : List Bool
  pub running : Bool
  pub past_deadline : Bool

-- A slot that the answers do not reach is not consumed.
unfoldable pub reclaim : List Bool → List Bool → List Bool
reclaim [] consumed = []
reclaim (h ∷ held) [] = h ∷ held
reclaim (h ∷ held) (c ∷ consumed) = (h && not c) ∷ reclaim held consumed

-- The first slot from `slot` on that is not held.
unfoldable pub first_free : List Bool → ℕ → Option ℕ
first_free [] slot = none
first_free (h ∷ held) slot =
    let later = first_free held (slot + 1) in if h then later else some slot

pub record Acquired : Type 0 where
  pub slot : Option ℕ
  pub waited : Bool
  pub held : List Bool

-- The end of a round in which no slot is free; `later` is the rest of the loop.
abbrev pub give_up : Poll → Bool → List Bool → Option Acquired → Option Acquired
give_up poll waited held later =
    if not poll.running || poll.past_deadline
    then some (record { slot = none; waited = waited; held = held })
    else later

abbrev pub after_round : Option ℕ → Poll → Bool → List Bool → Option Acquired → Option Acquired
after_round (some slot) poll waited held later =
    some (record { slot = some slot; waited = waited; held = held })
after_round none poll waited held later = give_up poll waited held later

-- None: the loop is still in it after these polls.
unfoldable pub acquire_slot : List Poll → Bool → List Bool → Option Acquired
unfolding reclaim first_free
acquire_slot [] waited held = none
acquire_slot (poll ∷ polls) waited held =
    let now = reclaim held poll.consumed in
    let later = acquire_slot polls true now in after_round (first_free now 0) poll waited now later

pub record Source : Type 0 where
  pub started : Bool
  pub buffer_bytes : ℕ
  pub held : List Bool
  pub next_frame_id : ℕ
  pub late : ℕ
  pub undecodable : ℕ

pub record ReplayMessage : Type 0 where
  pub stamp_ns : ℕ
  pub content : List ℕ

pub record FrameMeta : Type 0 where
  pub timestamp_ns : ℕ
  pub host_recv_ns : ℕ
  pub frame_id : ℕ
  pub bytes : ℕ

-- What is written to the sink's buffer, and committed.
pub record Commit : Type 0 where
  pub slot : ℕ
  pub meta : FrameMeta
  pub pixels : List ℕ

pub record Handled : Type 0 where
  pub source : Source
  pub result : Bool
  pub commit : Option Commit

unfoldable pub start : Source → ℕ → ℕ → Option Source
start s slot_bytes slot_count =
    if s.started
    then some s
    else if ltb slot_bytes s.buffer_bytes
    then none
    else some (record s { started = true; held = replicate slot_count false })

abbrev pub refuse : Source → Option Handled
refuse s = some (record { source = s; result = false; commit = none })

abbrev pub waited_for : Source → Acquired → Source
waited_for s a = record s { held = a.held; late = if a.waited then inc64 s.late else s.late }

abbrev pub fill : Source → ℕ → ReplayMessage → DecodedImage → ℕ → Handled
fill s slot message image now = record {
  source = record s { held = set s.held slot true; next_frame_id = inc32 s.next_frame_id };
  result = true;
  commit = some (record {
    slot = slot;
    meta = record {
      timestamp_ns = message.stamp_ns;
      host_recv_ns = now;
      frame_id = s.next_frame_id;
      bytes = length image.pixels;
    };
    pixels = image.pixels;
  });
}

abbrev pub fill_slot : Source → ReplayMessage → DecodedImage → ℕ → Option ℕ → Option Handled
fill_slot s message image now none = refuse s
fill_slot s message image now (some slot) = some (fill s slot message image now)

abbrev pub fill_acquired :
    Source → ReplayMessage → DecodedImage → ℕ → Option Acquired → Option Handled
fill_acquired s message image now none = none
fill_acquired s message image now (some a) = fill_slot (waited_for s a) message image now a.slot

unfoldable pub place : Source → ReplayMessage → ℕ → List Poll → Option DecodedImage → Option Handled
unfolding acquire_slot
place s message now polls none = refuse (record s { undecodable = inc64 s.undecodable })
place s message now polls (some image) =
    if ltb s.buffer_bytes (length image.pixels)
    then refuse (record s { undecodable = inc64 s.undecodable })
    else fill_acquired s message image now (acquire_slot polls false s.held)

-- `now` is what host_now_ns answers.
unfoldable pub on_message : Source → ReplayMessage → ℕ → List Poll → Option Handled
unfolding place
on_message s message now polls =
    if not s.started then refuse s else place s message now polls (decode_image message.content)
