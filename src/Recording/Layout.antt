-- ===== src/Recording/Layout.antt =====
-- What the files hold when frames have been written.
use perception_pipeline.Recording.Writes.{
  write_all-appends, write_all-done, pwrite_all-done, pwrite_all-Puts,
}
use perception_pipeline.Recording.Disk.{Puts, Steady}
use perception_pipeline.Recording.{
  write_all, counted, after_index, after_data, pwrite_all, IndexRecord, record_align, stored,
  entry_of, Answer, File, Frame, Stream, write_frame, round_up, record_octets,
}
use perception_pipeline.Prelude.{
  Bool, List, Option, [], ap, append-nil, append_assoc, arith, false, get_or, inl, inr, length,
  none, refl, some, some-injective, subst, suc, sym, true, zero, ℕ, ◌%◌, ◌++◌, ◌+◌, ◌<◌, ◌==◌, ◌^◌,
  ◌∙◌, ◌∷◌, ◌≡◌, ◌≤◌, ◌⊎◌,
}

-- A frame, and the system's answers while it is written.
pub record Job : Type 0 where
  pub frame : Frame
  pub data_answers : List Answer
  pub index_answers : List Answer

-- The stream behind some frames, and whether none of them failed: `error_` is still empty.
pub record WriterEnd : Type 0 where
  pub stream : Stream
  pub fine : Bool

-- A failed write is remembered, and the thread goes on; one that has not returned stops it.
abbrev pub go_on : Option Bool → Option WriterEnd → Option WriterEnd
go_on none rest = none
go_on (some true) rest = rest
go_on (some false) none = none
go_on (some false) (some w) = some (record w { fine = false })

-- The writer thread on one staged frame after the other. None: a write has not returned.
unfoldable pub write_frames : List Job → Stream → Option WriterEnd
unfolding write_frame
write_frames [] s = some record { stream = s; fine = true }
write_frames (j ∷ js) s =
    let o = write_frame s j.frame j.data_answers j.index_answers in
    let rest = write_frames js o.stream in go_on o.result rest

-- Where the next frame goes, behind one at `offset`.
abbrev pub next : ℕ → Frame → ℕ
next offset f = offset + round_up (length f.pixels) record_align

abbrev pub end_of : ℕ → List Job → ℕ
end_of offset [] = offset
end_of offset (j ∷ js) = end_of (next offset j.frame) js

abbrev pub index_of : ℕ → List Job → List ℕ
index_of offset [] = []
index_of offset (j ∷ js) =
    record_octets (entry_of j.frame offset) ++ index_of (next offset j.frame) js

-- The file has the frames, each at its place.
pub data Stores (f : File) : ℕ → List Job → Type 0 where
  no_more : {offset : ℕ} → Stores f offset []
  stores :
      {offset : ℕ} {j : Job} {js : List Job}
      → stored f offset (length j.frame.pixels) ≡ j.frame.pixels
      → (length j.frame.pixels ≡ 0) ⊎ (offset + length j.frame.pixels ≤ f.size)
      → Stores f (next offset j.frame) js
      → Stores f offset (j ∷ js)

pub data Obliging : List Job → Type 0 where
  none_asked : Obliging []
  obliging :
      {j : Job} {js : List Job}
      → Steady (length j.frame.pixels) j.data_answers
      → Steady 32 j.index_answers
      → Obliging js
      → Obliging (j ∷ js)

round_up-ge : (n : ℕ) → n ≤ round_up n record_align
unfolding round_up
round_up-ge n = omega arith

pub end_of-ge : (offset : ℕ) (js : List Job) → offset ≤ end_of offset js
end_of-ge offset [] = omega arith
end_of-ge offset (j ∷ js) =
    omega (arith, end_of-ge (next offset j.frame) js, round_up-ge (length j.frame.pixels))

pub length-record_octets : (r : IndexRecord) → length (record_octets r) ≡ 32
unfolding record_octets
length-record_octets r = refl

stored-same :
    (f g : File) (offset n : ℕ)
    → ((j : ℕ) → j < offset + n → g.octet j ≡ f.octet j)
    → stored g offset n ≡ stored f offset n
stored-same f g offset zero h = refl
stored-same f g offset (suc n) h =
    let first = h offset (omega arith) in
    let rest = stored-same f g (offset + 1) n (λ j k. h j (omega (arith, k))) in
    rw first (ap (λ xs. f.octet offset ∷ xs) rest)

stored-inside :
    (g : File) (offset : ℕ) (xs : List ℕ)
    → ((j : ℕ) → j < length xs → g.octet (offset + j) ≡ get_or xs j 0)
    → stored g offset (length xs) ≡ xs
stored-inside g offset [] h = refl
stored-inside g offset (x ∷ xs) h =
    let zeroth : offset + 0 ≡ offset = omega arith in
    let first : g.octet offset ≡ x = ap (λ i. g.octet i) (sym zeroth) ∙ h 0 (omega arith) in
    let rest = stored-inside g (offset + 1) xs (λ j k.
      let on : offset + 1 + j ≡ offset + suc j = omega arith in
      ap (λ i. g.octet i) on ∙ h (suc j) (omega (arith, k))) in
    rw first (ap (λ ys. x ∷ ys) rest)

-- What one frame leaves behind.
pub record Wrote (s t : Stream) (f : Frame) : Type 0 where
  pub data_put : Puts s.data_file s.offset f.pixels t.data_file
  pub index_put : t.index_file ≡ s.index_file ++ record_octets (entry_of f s.offset)
  pub moved : t.offset ≡ next s.offset f % 2 ^ 64

after_index-fine :
    (s : Stream) (r : IndexRecord) (result : Option Bool)
    → (after_index s r result).result ≡ some true
    → (result ≡ some true) × ((after_index s r result).stream ≡ counted s r)
after_index-fine s r none e = absurd (ground (arith, e))
after_index-fine s r (some false) e = absurd (ground (arith, e))
after_index-fine s r (some true) e = (refl, refl)

after_data-fine :
    (s : Stream) (r : IndexRecord) (answers : List Answer) (result : Option Bool)
    → (after_data s r answers result).result ≡ some true
    → (result ≡ some true)
      × ((after_data s r answers result).stream
          ≡ counted (record s { index_file = s.index_file ++ record_octets r }) r)
after_data-fine s r answers none e = absurd (ground (arith, e))
after_data-fine s r answers (some false) e = absurd (ground (arith, e))
after_data-fine s r answers (some true) e =
    let w = write_all answers (record_octets r) s.index_file in
    let (fine, same) = after_index-fine (record s { index_file = w.file }) r w.result e in
    (
      refl,
      same
          ∙ ap (λ f. counted (record s { index_file = f }) r)
              (write_all-appends answers (record_octets r) s.index_file fine),
    )

pub write_frame-Wrote :
    (s : Stream) (f : Frame) (das ias : List Answer)
    → (write_frame s f das ias).result ≡ some true
    → Wrote s (write_frame s f das ias).stream f
unfolding write_frame
write_frame-Wrote s f das ias e =
    let w = pwrite_all das f.pixels s.offset s.data_file in
    let (fine, same) =
      after_data-fine (record s { data_file = w.file }) (entry_of f s.offset) ias w.result e in
    let puts = pwrite_all-Puts das f.pixels s.offset s.data_file fine in
    record {
      data_put = subst (λ t. Puts s.data_file s.offset f.pixels t.data_file) (sym same) puts;
      index_put = ap (λ t. t.index_file) same;
      moved = ap (λ t. t.offset) same;
    }

pub write_frame-done :
    (s : Stream) (f : Frame) (das ias : List Answer)
    → Steady (length f.pixels) das
    → Steady 32 ias
    → (write_frame s f das ias).result ≡ some true
unfolding write_frame
write_frame-done s f das ias hd hi =
    let octets = record_octets (entry_of f s.offset) in
    let wide = length-record_octets (entry_of f s.offset) in
    let there = pwrite_all-done das f.pixels s.offset s.data_file hd in
    let here = write_all-done ias octets s.index_file (subst (λ n. Steady n ias) (sym wide) hi) in
    rw there (rw here refl)

-- All that a run of the writer thread leaves behind.
pub record Leaves (s t : Stream) (js : List Job) : Type 0 where
  pub index : t.index_file ≡ s.index_file ++ index_of s.offset js
  pub frames : Stores t.data_file s.offset js
  pub below : (j : ℕ) → j < s.offset → t.data_file.octet j ≡ s.data_file.octet j
  pub grows : s.data_file.size ≤ t.data_file.size

Leaves-more :
    (s m t : Stream) (j : Job) (js : List Job)
    → Wrote s m j.frame
    → next s.offset j.frame < 2 ^ 64
    → Leaves m t js
    → Leaves s t (j ∷ js)
Leaves-more s m t j js w small l =
    let n = length j.frame.pixels in
    let place : m.offset ≡ next s.offset j.frame = omega (arith, w.moved, small) in
    let room = round_up-ge n in
    let put_in = w.data_put in
    let still : (k : ℕ) → k < n → t.data_file.octet (s.offset + k) ≡ get_or j.frame.pixels k 0 =
      λ k h. l.below (s.offset + k) (omega (arith, place, room, h)) ∙ put_in.inside k h in
    record {
      index =
          l.index
          ∙ (ap (λ xs. xs ++ index_of m.offset js) w.index_put
              ∙ (append_assoc s.index_file (record_octets (entry_of j.frame s.offset))
                    (index_of m.offset js)
                  ∙ ap
                      (λ o.
                        s.index_file
                        ++ (record_octets (entry_of j.frame s.offset) ++ index_of o js))
                      place));
      frames =
          stores (stored-inside t.data_file s.offset j.frame.pixels still)
            (elim (n == 0) as (λ b. (n == 0) ≡ b → (n ≡ 0) ⊎ (s.offset + n ≤ t.data_file.size)) [
              | true ↦ λ e. inl (ground (arith, e))
              | false ↦ λ e.
                  let one : 1 ≤ n = ground (arith, e) in
                  inr (omega (arith, put_in.covers one, l.grows))
            ]
              refl)
            (subst (λ o. Stores t.data_file o js) place l.frames);
      below = λ k h. l.below k (omega (arith, place, room, h)) ∙ put_in.below k h;
      grows = omega (arith, l.grows, put_in.grows);
    }

by_result :
    {P : Type 0} {t : Stream} (result : Option Bool) (rest : Option WriterEnd)
    → (result ≡ some true → rest ≡ some record { stream = t; fine = true } → P)
    → go_on result rest ≡ some record { stream = t; fine = true }
    → P
by_result none rest h e = absurd (ground (arith, e))
by_result (some false) none h e = absurd (ground (arith, e))
by_result (some false) (some w) h e =
    absurd (ground (arith, ap (λ (v : WriterEnd). v.fine) (some-injective e)))
by_result (some true) rest h e = h refl e

-- When the writer thread's frames are all written, by whatever answers of the system, and their places end
-- below 2 ^ 64: the index file has grown by their entries, in order, each with the place of its frame;
-- every frame is in the data file at its place; and the octets before the first are as before.
pub write_frames-Leaves :
    (js : List Job) (s : Stream) {t : Stream}
    → write_frames js s ≡ some record { stream = t; fine = true }
    → end_of s.offset js < 2 ^ 64
    → Leaves s t js
unfolding write_frames
write_frames-Leaves [] s {t} e h =
    subst (λ v. Leaves s v []) (ap (λ (v : WriterEnd). v.stream) (some-injective e))
      (record {
        index = sym (append-nil s.index_file);
        frames = no_more;
        below = λ j k. refl;
        grows = omega arith;
      })
write_frames-Leaves (j ∷ js) s {t} e h =
    let o = write_frame s j.frame j.data_answers j.index_answers in
    let small : next s.offset j.frame < 2 ^ 64 =
      omega (arith, h, end_of-ge (next s.offset j.frame) js) in
    let after : o.result ≡ some true
        → write_frames js o.stream ≡ some record { stream = t; fine = true }
        → Leaves s t (j ∷ js) =
      λ fine k.
        let w = write_frame-Wrote s j.frame j.data_answers j.index_answers fine in
        let place : o.stream.offset ≡ next s.offset j.frame = omega (arith, w.moved, small) in
        Leaves-more s o.stream t j js w small
          (write_frames-Leaves js o.stream k (subst (λ p. end_of p js < 2 ^ 64) (sym place) h)) in
    by_result o.result (write_frames js o.stream) after e
