-- ===== src/Recording/Staging.antt =====
-- The staging ring of a StreamWriter: push, run and close, whose critical sections are steps, with the copy
-- of a frame and the write of one outside them. Frames come from one thread for each stream.
pub mod Slots
pub mod Ring
pub mod Writing
pub mod Runs
use perception_pipeline.Recording.{Frame}
use perception_pipeline.Prelude.{
  Bool, List, Option, [], count, false, if◌then◌else◌, inc64, max, none, not, some, ℕ, ◌%◌, ◌++◌,
  ◌+◌, ◌-◌, ◌==◌, ◌||◌, ◌∷◌,
}

-- staging and meta_ as the frame of each slot; `failed` tells that error_ is not empty.
pub record Staging : Type 0 where
  pub slots : ℕ → Frame
  pub size : ℕ
  pub head : ℕ
  pub count : ℕ
  pub published : ℕ
  pub running : Bool
  pub failed : Bool
  pub drops : ℕ
  pub peak : ℕ

pub record Reserved : Type 0 where
  pub staging : Staging
  pub slot : Option ℕ

-- The first critical section of push.
unfoldable pub reserve : Staging → Reserved
reserve s =
    if not s.running || (s.failed || s.count == s.size)
    then record { staging = record s { drops = inc64 s.drops }; slot = none }
    else record {
      staging = record s { count = s.count + 1; peak = max (s.count + 1) s.peak };
      slot = some ((s.head + s.count) % s.size);
    }

unfoldable pub copy : Staging → ℕ → Frame → Staging
copy s slot f = record s { slots = λ j. if j == slot then f else s.slots j }

-- The second critical section of push.
unfoldable pub publish : Staging → Staging
publish s = record s { published = s.published + 1 }

-- What the writer thread finds: to go on waiting, to leave the loop, or a slot.
pub data Found : Type 0 where
  nothing drained : Found
  ready : ℕ → Found

unfoldable pub look : Staging → Found
look s = if s.published == 0 then (if s.running then nothing else drained) else ready s.head

unfoldable pub finish : Staging → Bool → Staging
finish s ok = record s {
  head = (s.head + 1) % s.size;
  count = s.count - 1;
  published = s.published - 1;
  failed = s.failed || not ok;
}

unfoldable pub close : Staging → Staging
close s = record s { running = false }

pub data Pusher : Type 0 where
  idle : Pusher
  reserved copied : ℕ → Frame → Pusher

pub data Writer : Type 0 where
  resting left : Writer
  writing : ℕ → Writer
  has_put : Bool → Writer

-- `accepted` are the frames whose push returned true, and `given` those that went to write_frame.
pub record World : Type 0 where
  pub staging : Staging
  pub pusher : Pusher
  pub writer : Writer
  pub accepted : List Frame
  pub given : List Frame

pub data Step : Type 0 where
  begin_push : Frame → Step
  copy_frame end_push look_up call_close end_write : Step
  write_slot : Bool → Step

abbrev pub pusher_of : Option ℕ → Frame → Pusher
pusher_of none f = idle
pusher_of (some slot) f = reserved slot f

abbrev pub begun : World → Frame → Reserved → World
begun w f r = record w { staging = r.staging; pusher = pusher_of r.slot f }

abbrev pub push_begins : World → Frame → Pusher → World
push_begins w f idle = begun w f (reserve w.staging)
push_begins w f (reserved slot g) = w
push_begins w f (copied slot g) = w

abbrev pub push_copies : World → Pusher → World
push_copies w idle = w
push_copies w (reserved slot f) = record w {
  staging = copy w.staging slot f;
  pusher = copied slot f;
}
push_copies w (copied slot f) = w

abbrev pub push_ends : World → Pusher → World
push_ends w idle = w
push_ends w (reserved slot f) = w
push_ends w (copied slot f) = record w {
  staging = publish w.staging;
  pusher = idle;
  accepted = w.accepted ++ f ∷ [];
}

abbrev pub writer_of : Found → Writer
writer_of nothing = resting
writer_of drained = left
writer_of (ready slot) = writing slot

abbrev pub looks : World → Writer → World
looks w resting = record w { writer = writer_of (look w.staging) }
looks w left = w
looks w (writing slot) = w
looks w (has_put ok) = w

abbrev pub writes : World → Bool → Writer → World
writes w ok resting = w
writes w ok left = w
writes w ok (writing slot) = record w {
  writer = has_put ok;
  given = w.given ++ w.staging.slots slot ∷ [];
}
writes w ok (has_put b) = w

abbrev pub finishes : World → Writer → World
finishes w resting = w
finishes w left = w
finishes w (writing slot) = w
finishes w (has_put ok) = record w { staging = finish w.staging ok; writer = resting }

unfoldable pub step : Step → World → World
unfolding reserve copy publish look finish close
step (begin_push f) w = push_begins w f w.pusher
step copy_frame w = push_copies w w.pusher
step end_push w = push_ends w w.pusher
step look_up w = looks w w.writer
step (write_slot ok) w = writes w ok w.writer
step end_write w = finishes w w.writer
step call_close w = record w { staging = close w.staging }

abbrev pub run : List Step → World → World
run [] w = w
run (s ∷ steps) w = run steps (step s w)
