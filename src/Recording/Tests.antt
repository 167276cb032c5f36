-- ===== src/Recording/Tests.antt =====
-- Two frames through the files, with short and interrupted writes, and an instance of each theorem.
use perception_pipeline.Recording.Staging.Runs.{run-Whole}
use perception_pipeline.Recording.Staging.Ring.{Whole}
use perception_pipeline.Recording.Staging.{
  end_write, write_slot, look_up, end_push, left, copy_frame, call_close, resting, run, idle,
  begin_push, World, step, Staging, Step,
}
use perception_pipeline.Recording.Pairs.{pair-Answers, pair, Answers}
use perception_pipeline.Recording.Layout.{
  WriterEnd, none_asked, obliging, end_of, Job, Obliging, write_frames,
}
use perception_pipeline.Recording.{
  interrupted, wrote, File, round_up, is_reconnect_seam, Stream, Answer, Frame,
}
use perception_pipeline.Recording.Disk.{once_more, some_more, enough, Steady}
use perception_pipeline.Recording.Reading.{
  is_fine, no_job, fit, write_frames-done, write_frames-Readable, entries_of, Readable, AllFit,
}
use perception_pipeline.Prelude.{
  Option, false, List, [], arith, none, refl, some, suc, true, zero, ℕ, ◌∷◌, ◌≡◌,
}

abbrev first_frame : Frame
first_frame = record {
  timestamp_ns = 100;
  host_recv_ns = 900;
  frame_id = 7;
  pixels = 5 ∷ 6 ∷ 9 ∷ [];
}

abbrev second_frame : Frame
second_frame = record { timestamp_ns = 300; host_recv_ns = 950; frame_id = 2; pixels = 4 ∷ 8 ∷ [] }

-- Each answer is for one octet at least.
abbrev octet_by_octet : ℕ → List Answer
octet_by_octet zero = interrupted ∷ []
octet_by_octet (suc n) = wrote 1 ∷ octet_by_octet n

octet_by_octet-Steady : (n : ℕ) → Steady n (octet_by_octet n)
octet_by_octet-Steady zero = enough
octet_by_octet-Steady (suc n) = some_more (octet_by_octet-Steady n)

abbrev jobs : List Job
jobs =
    record {
      frame = first_frame;
      data_answers = wrote 1 ∷ interrupted ∷ wrote 7 ∷ wrote 1 ∷ [];
      index_answers = octet_by_octet 32;
    }
    ∷ record {
      frame = second_frame;
      data_answers = octet_by_octet 2;
      index_answers = octet_by_octet 32;
    }
    ∷ []

abbrev empty_file : File
empty_file = record { octet = λ j. 0; size = 0 }

abbrev new_stream : Stream
new_stream = record {
  data_file = empty_file;
  index_file = [];
  offset = 0;
  written = 0;
  bytes_written = 0;
  first_ts = 0;
  last_ts = 0;
}

jobs-Obliging : Obliging jobs
jobs-Obliging =
    obliging (some_more (once_more (some_more (some_more enough)))) (octet_by_octet-Steady 32)
      (obliging (octet_by_octet-Steady 2) (octet_by_octet-Steady 32) none_asked)

write_frames-done_example : is_fine (write_frames jobs new_stream) ≡ true
write_frames-done_example = write_frames-done jobs new_stream jobs-Obliging

jobs-AllFit : AllFit jobs
jobs-AllFit =
    fit
      (record {
        timestamp_ns = omega arith;
        host_recv_ns = omega arith;
        frame_id = omega arith;
        pixels = omega arith;
      })
      (fit
        (record {
          timestamp_ns = omega arith;
          host_recv_ns = omega arith;
          frame_id = omega arith;
          pixels = omega arith;
        })
        no_job)

abbrev stream_of : Option WriterEnd → Stream
stream_of none = new_stream
stream_of (some w) = w.stream

after_jobs : Stream
unfolding write_frames
after_jobs = stream_of (write_frames jobs new_stream)

jobs_written : write_frames jobs new_stream ≡ some record { stream = after_jobs; fine = true }
unfolding after_jobs write_frames
jobs_written = refl

places : end_of 0 jobs ≡ 8192
unfolding round_up
places = refl

write_frames-Readable_example : Readable jobs after_jobs
write_frames-Readable_example =
    write_frames-Readable jobs new_stream (record { start = refl; no_entries = refl }) jobs-AllFit
      (omega (arith, places)) jobs_written

seam : is_reconnect_seam (entries_of 0 jobs) 1 ≡ true
unfolding is_reconnect_seam
seam = refl

-- A stream paired with itself.
pair-Answers_example :
    Answers 50
      (entries_of 0 jobs ∷ entries_of 0 jobs ∷ [])
      (pair (entries_of 0 jobs ∷ entries_of 0 jobs ∷ []) 50)
pair-Answers_example = pair-Answers (entries_of 0 jobs ∷ entries_of 0 jobs ∷ []) 50

abbrev new_staging : Staging
new_staging = record {
  slots = λ j. first_frame;
  size = 2;
  head = 0;
  count = 0;
  published = 0;
  running = true;
  failed = false;
  drops = 0;
  peak = 0;
}

abbrev new_world : World
new_world = record {
  staging = new_staging;
  pusher = idle;
  writer = resting;
  accepted = [];
  given = [];
}

-- The second push begins while the first frame is written.
abbrev steps : List Step
steps =
    begin_push first_frame
    ∷ copy_frame
    ∷ end_push
    ∷ look_up
    ∷ begin_push second_frame
    ∷ write_slot true
    ∷ copy_frame
    ∷ end_write
    ∷ end_push
    ∷ []

run-Whole_example : Whole (run steps new_world)
run-Whole_example = run-Whole steps new_world (record {
  some_slot = omega arith;
  start = refl;
  no_count = refl;
  none_published = refl;
  no_push = refl;
  no_write = refl;
  none_accepted = refl;
  none_given = refl;
})

-- A push whose copy is under way when close comes returns true, and its frame is not written.
abbrev lost : List Step
lost = begin_push first_frame ∷ call_close ∷ look_up ∷ copy_frame ∷ end_push ∷ look_up ∷ []

lost_accepted : (run lost new_world).accepted ≡ first_frame ∷ []
unfolding step
lost_accepted = refl

lost_left : (run lost new_world).writer ≡ left
unfolding step
lost_left = refl
