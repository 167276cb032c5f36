-- ===== src/Recording/Reading.antt =====
-- What a reader finds of the frames that were written.
use perception_pipeline.Recording.Writes.{pread_all-done}
use perception_pipeline.Recording.Disk.{Steady}
use perception_pipeline.Cdr.Layout.{from_le-le_bytes, bound}
use perception_pipeline.Recording.Layout.{
  WriterEnd, go_on, stores, end_of-ge, length-record_octets, write_frame-done, Stores, next,
  obliging, write_frames-Leaves, end_of, Obliging, index_of, write_frames, Job,
}
use perception_pipeline.Recording.{
  read_entry, write_frame, entry_of, entries, Answer, IndexRecord, File, entry_at, read_frame,
  Stream, Frame, read_index, record_octets,
}
use perception_pipeline.Prelude.{
  false, Bool, Option, List, [], ap, arith, drop, get_elem?, length, length-append, none, refl,
  some, some-injective, subst, suc, sym, true, zero, ℕ, ◌%◌, ◌*◌, ◌++◌, ◌/◌, ◌<◌, ◌==◌, ◌^◌, ◌∙◌,
  ◌∷◌, ◌≡◌,
}

-- The stamps, the number and the length of a frame fit an entry.
pub record Fits (f : Frame) : Type 0 where
  pub timestamp_ns : f.timestamp_ns < 2 ^ 64
  pub host_recv_ns : f.host_recv_ns < 2 ^ 64
  pub frame_id : f.frame_id < 2 ^ 32
  pub pixels : length f.pixels < 2 ^ 32

pub data AllFit : List Job → Type 0 where
  no_job : AllFit []
  fit : {j : Job} {js : List Job} → Fits j.frame → AllFit js → AllFit (j ∷ js)

abbrev pub entries_of : ℕ → List Job → List IndexRecord
entries_of offset [] = []
entries_of offset (j ∷ js) = entry_of j.frame offset ∷ entries_of (next offset j.frame) js

entry_at-record_octets :
    (f : Frame) (offset : ℕ) (rest : List ℕ)
    → Fits f
    → offset < 2 ^ 64
    → entry_at (record_octets (entry_of f offset) ++ rest) ≡ entry_of f offset
unfolding entry_at record_octets bound
entry_at-record_octets f offset rest h l =
    let a = from_le-le_bytes 8 f.timestamp_ns (omega (arith, h.timestamp_ns)) in
    let b = from_le-le_bytes 8 f.host_recv_ns (omega (arith, h.host_recv_ns)) in
    let c = from_le-le_bytes 8 offset (omega (arith, l)) in
    let d = from_le-le_bytes 4 (length f.pixels) (omega (arith, h.pixels)) in
    let e = from_le-le_bytes 4 f.frame_id (omega (arith, h.frame_id)) in
    rw a (rw b (rw c (rw d (rw e refl))))

drop-record_octets : (r : IndexRecord) (rest : List ℕ) → drop 32 (record_octets r ++ rest) ≡ rest
unfolding record_octets
drop-record_octets r rest = refl

length-index_of : (offset : ℕ) (js : List Job) → length (index_of offset js) ≡ 32 * length js
length-index_of offset [] = omega arith
length-index_of offset (j ∷ js) = omega (
  arith,
  length-append {A = ℕ} (record_octets (entry_of j.frame offset))
      (index_of (next offset j.frame) js),
  length-record_octets (entry_of j.frame offset),
  length-index_of (next offset j.frame) js,
)

entries-index_of :
    (offset : ℕ) (js : List Job)
    → AllFit js
    → end_of offset js < 2 ^ 64
    → entries (length js) (index_of offset js) ≡ entries_of offset js
entries-index_of offset [] h l = refl
entries-index_of offset (j ∷ js) (fit f h) l =
    let rest = index_of (next offset j.frame) js in
    let small : offset < 2 ^ 64 = omega (arith, end_of-ge offset (j ∷ js), l) in
    let first = entry_at-record_octets j.frame offset rest f small in
    let later = drop-record_octets (entry_of j.frame offset) rest in
    rw first (
      rw later
        (ap (λ es. entry_of j.frame offset ∷ es) (entries-index_of (next offset j.frame) js h l)))

read_index-index_of :
    (offset : ℕ) (js : List Job)
    → AllFit js
    → end_of offset js < 2 ^ 64
    → read_index (index_of offset js) ≡ some (entries_of offset js)
unfolding read_index
read_index-index_of offset js h l =
    let n = length-index_of offset js in
    let whole : (length (index_of offset js) % 32 == 0) ≡ true = ground (arith, n) in
    let count : length (index_of offset js) / 32 ≡ length js = omega (arith, n) in
    rw whole (rw count (ap some (entries-index_of offset js h l)))

read_frame-Stores :
    (f : File) (offset : ℕ) (js : List Job) (i : ℕ) (j : Job) (answers : List Answer)
    → Stores f offset js
    → get_elem? js i ≡ some j
    → Steady (length j.frame.pixels) answers
    → read_frame (entries_of offset js) f i answers ≡ some (some j.frame.pixels)
unfolding read_frame
read_frame-Stores f offset [] i j answers h e l = absurd (ground (arith, e))
read_frame-Stores f offset (k ∷ js) zero j answers (stores same inside h) e l =
    let this : k ≡ j = some-injective e in
    subst (λ m. read_entry f answers (some (entry_of k.frame offset)) ≡ some (some m.frame.pixels))
      this
      (pread_all-done answers (length k.frame.pixels) offset f []
          (subst (λ m. Steady (length m.frame.pixels) answers) (sym this) l) inside
        ∙ ap (λ xs. some (some xs)) same)
read_frame-Stores f offset (k ∷ js) (suc i) j answers (stores same inside h) e l =
    read_frame-Stores f (next offset k.frame) js i j answers h e l

-- A stream whose files are empty.
pub record IsNew (s : Stream) : Type 0 where
  pub start : s.offset ≡ 0
  pub no_entries : s.index_file ≡ []

-- The frames can be read back from the stream `t`.
pub record Readable (js : List Job) (t : Stream) : Type 0 where
  pub index : List IndexRecord
  pub opens : read_index t.index_file ≡ some index
  pub exact : index ≡ entries_of 0 js
  pub reads :
      (i : ℕ) (j : Job) (answers : List Answer)
      → get_elem? js i ≡ some j
      → Steady (length j.frame.pixels) answers
      → read_frame index t.data_file i answers ≡ some (some j.frame.pixels)

-- Frames, whose stamps, numbers and lengths fit an entry and whose places end below 2 ^ 64, that the writer
-- thread has all written to new files, however the system split the writes, are what a reader
-- finds there: the index file opens as their entries, in order, and each frame is read back from
-- the data file with its pixels, however the system splits the reads, as long as it brings each further.
pub write_frames-Readable :
    (js : List Job) (s : Stream) {t : Stream}
    → IsNew s
    → AllFit js
    → end_of 0 js < 2 ^ 64
    → write_frames js s ≡ some record { stream = t; fine = true }
    → Readable js t
write_frames-Readable js s {t} new h l e =
    let left = write_frames-Leaves js s e (subst (λ o. end_of o js < 2 ^ 64) (sym new.start) l) in
    let file : t.index_file ≡ index_of 0 js =
      left.index
      ∙ (ap (λ xs. xs ++ index_of s.offset js) new.no_entries
          ∙ ap (λ o. index_of o js) new.start) in
    record {
      index = entries_of 0 js;
      opens = ap read_index file ∙ read_index-index_of 0 js h l;
      exact = refl;
      reads = λ i j answers k m.
          read_frame-Stores t.data_file 0 js i j answers
            (subst (λ o. Stores t.data_file o js) new.start left.frames) k m;
    }

-- All writes have returned, and none failed.
abbrev pub is_fine : Option WriterEnd → Bool
is_fine none = false
is_fine (some w) = w.fine

-- As long as every answer of the system brings its write further, or is an interruption, all frames are
-- written: the writer thread's writes of them return, and are fine.
pub write_frames-done :
    (js : List Job) (s : Stream) → Obliging js → is_fine (write_frames js s) ≡ true
unfolding write_frames
write_frames-done [] s h = refl
write_frames-done (j ∷ js) s (obliging hd hi h) =
    let fine = write_frame-done s j.frame j.data_answers j.index_answers hd hi in
    let rest = write_frames js (write_frame s j.frame j.data_answers j.index_answers).stream in
    ap (λ r. is_fine (go_on r rest)) fine
    ∙ write_frames-done js (write_frame s j.frame j.data_answers j.index_answers).stream h
