-- ===== src/Recording.antt =====
-- recording/src/recording_writer.cpp and recording/src/recording_reader.cpp: a stream of frames in a data
-- file and an index file, and their way back. A file is its octets, with holes of zeros; the system's
-- answers to its calls are arguments. A structure in memory is little-endian.
pub mod Writes
pub mod Disk
pub mod Layout
pub mod Reading
pub mod Pairs
pub mod Staging
mod Tests
use perception_pipeline.Cdr.{le_bytes, from_le}
use perception_pipeline.Prelude.{
  Bool, List, Option, [], add64, drop, false, get_elem?, get_or, if◌then◌else◌, inc64, leb, length,
  ltb, max, min, none, some, suc, take, true, zero, ℕ, ◌%◌, ◌&&◌, ◌*◌, ◌++◌, ◌+◌, ◌-◌, ◌/◌, ◌==◌,
  ◌∷◌,
}

abbrev pub record_align : ℕ
record_align = 4096

unfoldable pub round_up : ℕ → ℕ → ℕ
round_up value to = (value + to - 1) / to * to

-- One frame's entry of the index file, without its place.
pub record IndexRecord : Type 0 where
  pub timestamp_ns : ℕ
  pub host_recv_ns : ℕ
  pub offset : ℕ
  pub bytes : ℕ
  pub frame_id : ℕ

-- What write and pwrite answer: a number of octets, EINTR, or another failure.
pub data Answer : Type 0 where
  wrote : ℕ → Answer
  interrupted failed : Answer

-- The octets of a data file, and its size.
pub record File : Type 0 where
  pub octet : ℕ → ℕ
  pub size : ℕ

unfoldable pub put : File → ℕ → List ℕ → File
put f offset xs = record {
  octet = λ j.
      if leb offset j && ltb j (offset + length xs) then get_or xs (j - offset) 0 else f.octet j;
  size = max f.size (offset + length xs);
}

-- None: the loop is still in it after these answers.
pub record Written {ℓ} (F : Type ℓ) : Type ℓ where
  pub file : F
  pub result : Option Bool

-- The system writes as many octets as it answers, of those it is given.
unfoldable pub pwrite_all : List Answer → List ℕ → ℕ → File → Written File
unfolding put
pwrite_all answers [] offset f = record { file = f; result = some true }
pwrite_all [] (x ∷ xs) offset f = record { file = f; result = none }
pwrite_all (wrote zero ∷ answers) (x ∷ xs) offset f = record { file = f; result = some false }
pwrite_all (wrote (suc n) ∷ answers) (x ∷ xs) offset f =
    let m = min (suc n) (length (x ∷ xs)) in
    pwrite_all answers (drop m (x ∷ xs)) (offset + m) (put f offset (take m (x ∷ xs)))
pwrite_all (interrupted ∷ answers) (x ∷ xs) offset f = pwrite_all answers (x ∷ xs) offset f
pwrite_all (failed ∷ answers) (x ∷ xs) offset f = record { file = f; result = some false }

-- At the end of a file that is only appended to.
unfoldable pub write_all : List Answer → List ℕ → List ℕ → Written (List ℕ)
write_all answers [] f = record { file = f; result = some true }
write_all [] (x ∷ xs) f = record { file = f; result = none }
write_all (wrote zero ∷ answers) (x ∷ xs) f = record { file = f; result = some false }
write_all (wrote (suc n) ∷ answers) (x ∷ xs) f =
    let m = min (suc n) (length (x ∷ xs)) in
    write_all answers (drop m (x ∷ xs)) (f ++ take m (x ∷ xs))
write_all (interrupted ∷ answers) (x ∷ xs) f = write_all answers (x ∷ xs) f
write_all (failed ∷ answers) (x ∷ xs) f = record { file = f; result = some false }

-- The 32 octets of an entry.
unfoldable pub record_octets : IndexRecord → List ℕ
record_octets r =
    le_bytes 8 r.timestamp_ns
    ++ (le_bytes 8 r.host_recv_ns
        ++ (le_bytes 8 r.offset ++ (le_bytes 4 r.bytes ++ le_bytes 4 r.frame_id)))

-- What the writer thread of a StreamWriter keeps.
pub record Stream : Type 0 where
  pub data_file : File
  pub index_file : List ℕ
  pub offset : ℕ
  pub written : ℕ
  pub bytes_written : ℕ
  pub first_ts : ℕ
  pub last_ts : ℕ

-- None: the write has not returned; else whether it was fine.
pub record Outcome : Type 0 where
  pub stream : Stream
  pub result : Option Bool

abbrev pub counted : Stream → IndexRecord → Stream
counted s r = record s {
  offset = add64 s.offset (round_up r.bytes record_align);
  first_ts = if s.written == 0 then r.timestamp_ns else s.first_ts;
  last_ts = r.timestamp_ns;
  bytes_written = add64 s.bytes_written r.bytes;
  written = inc64 s.written;
}

-- Behind the write of the entry, and behind that of the pixels.
abbrev pub after_index : Stream → IndexRecord → Option Bool → Outcome
after_index s r none = record { stream = s; result = none }
after_index s r (some false) = record { stream = s; result = some false }
after_index s r (some true) = record { stream = counted s r; result = some true }

abbrev pub after_data : Stream → IndexRecord → List Answer → Option Bool → Outcome
after_data s r answers none = record { stream = s; result = none }
after_data s r answers (some false) = record { stream = s; result = some false }
after_data s r answers (some true) =
    let w = write_all answers (record_octets r) s.index_file in
    after_index (record s { index_file = w.file }) r w.result

-- A frame in the staging ring: what push was given, its pixels being the octets that its uint32 of bytes counts.
pub record Frame : Type 0 where
  pub timestamp_ns : ℕ
  pub host_recv_ns : ℕ
  pub frame_id : ℕ
  pub pixels : List ℕ

abbrev pub entry_of : Frame → ℕ → IndexRecord
entry_of f offset = record {
  timestamp_ns = f.timestamp_ns;
  host_recv_ns = f.host_recv_ns;
  offset = offset;
  bytes = length f.pixels;
  frame_id = f.frame_id;
}

unfoldable pub write_frame : Stream → Frame → List Answer → List Answer → Outcome
unfolding pwrite_all write_all record_octets round_up
write_frame s f data_answers index_answers =
    let w = pwrite_all data_answers f.pixels s.offset s.data_file in
    after_data (record s { data_file = w.file }) (entry_of f s.offset) index_answers w.result

-- The reader's side: an index file as entries.
unfoldable pub entry_at : List ℕ → IndexRecord
entry_at bs = record {
  timestamp_ns = from_le (take 8 bs);
  host_recv_ns = from_le (take 8 (drop 8 bs));
  offset = from_le (take 8 (drop 16 bs));
  bytes = from_le (take 4 (drop 24 bs));
  frame_id = from_le (take 4 (drop 28 bs));
}

abbrev pub entries : ℕ → List ℕ → List IndexRecord
entries zero bs = []
entries (suc n) bs = entry_at bs ∷ entries n (drop 32 bs)

-- None stands for the exception on a size that is no whole number of entries.
unfoldable pub read_index : List ℕ → Option (List IndexRecord)
unfolding entry_at
read_index raw = if length raw % 32 == 0 then some (entries (length raw / 32) raw) else none

-- `n` octets of a file from `offset` on.
abbrev pub stored : File → ℕ → ℕ → List ℕ
stored f offset zero = []
stored f offset (suc n) = f.octet offset ∷ stored f (offset + 1) n

-- The loop of read_frame, which appends to `done`. None: it is still in it after these answers; some none
-- is the exception on a failure and at the end of the file.
unfoldable pub pread_all : List Answer → ℕ → ℕ → File → List ℕ → Option (Option (List ℕ))
pread_all answers zero offset f done = some (some done)
pread_all [] (suc k) offset f done = none
pread_all (wrote n ∷ answers) (suc k) offset f done =
    let m = min n (min (suc k) (f.size - offset)) in
    let rest = pread_all answers (suc k - m) (offset + m) f (done ++ stored f offset m) in
    if m == 0 then some none else rest
pread_all (interrupted ∷ answers) (suc k) offset f done = pread_all answers (suc k) offset f done
pread_all (failed ∷ answers) (suc k) offset f done = some none

-- A frame that is out of range is an exception too.
abbrev pub read_entry : File → List Answer → Option IndexRecord → Option (Option (List ℕ))
read_entry f answers none = some none
read_entry f answers (some r) = pread_all answers r.bytes r.offset f []

unfoldable pub read_frame : List IndexRecord → File → ℕ → List Answer → Option (Option (List ℕ))
unfolding pread_all
read_frame index f i answers = read_entry f answers (get_elem? index i)

abbrev pub seam_between : Option IndexRecord → Option IndexRecord → Bool
seam_between none now = false
seam_between (some before) none = false
seam_between (some before) (some now) =
    ltb now.frame_id before.frame_id && leb before.host_recv_ns now.host_recv_ns

unfoldable pub is_reconnect_seam : List IndexRecord → ℕ → Bool
is_reconnect_seam index zero = false
is_reconnect_seam index (suc i) = seam_between (get_elem? index i) (get_elem? index (suc i))
