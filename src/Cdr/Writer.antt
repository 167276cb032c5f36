-- ===== src/Cdr/Writer.antt =====
-- recording/include/cdr_writer.hpp: what each method appends to the message.
use perception_pipeline.Prelude.{
  Bool, List, [], if◌then◌else◌, length, map, suc, zero, ℕ, ◌%◌, ◌++◌, ◌+◌, ◌-◌, ◌==◌, ◌^◌, ◌∷◌,
}
use perception_pipeline.Cdr.{origin, le_bytes, encapsulation}

-- clear, and so a new writer.
abbrev pub clear : List ℕ → List ℕ
clear buffer = encapsulation

-- The loop of align, whose fuel `to` is enough for the padding.
unfoldable pub pad_to : ℕ → ℕ → List ℕ → List ℕ
pad_to zero to buffer = buffer
pad_to (suc fuel) to buffer =
    let rest = pad_to fuel to (buffer ++ 0 ∷ []) in
    if (length buffer - origin) % to == 0 then buffer else rest

unfoldable pub align_to : ℕ → List ℕ → List ℕ
unfolding pad_to
align_to to buffer = pad_to to to buffer

unfoldable pub raw : ℕ → ℕ → ℕ → List ℕ → List ℕ
unfolding align_to
raw v size alignment buffer = align_to alignment buffer ++ le_bytes size v

unfoldable pub write_u8 : ℕ → List ℕ → List ℕ
unfolding raw
write_u8 v buffer = raw v 1 1 buffer

unfoldable pub write_b : Bool → List ℕ → List ℕ
unfolding write_u8
write_b v buffer = write_u8 (if v then 1 else 0) buffer

-- u32, and i32 and f32 on their bit patterns.
unfoldable pub write_u32 : ℕ → List ℕ → List ℕ
unfolding raw
write_u32 v buffer = raw v 4 4 buffer

-- u64, and i64 and f64 on their bit patterns.
unfoldable pub write_u64 : ℕ → List ℕ → List ℕ
unfolding raw
write_u64 v buffer = raw v 8 8 buffer

unfoldable pub write_str : List ℕ → List ℕ → List ℕ
unfolding write_u32
write_str v buffer = write_u32 ((length v + 1) % 2 ^ 32) buffer ++ (v ++ 0 ∷ [])

abbrev pub elements : ℕ → List ℕ → List ℕ
elements element [] = []
elements element (v ∷ vs) = le_bytes element v ++ elements element vs

-- run, for f64_array and f32_array: the elements are as wide as their alignment.
unfoldable pub write_run : List ℕ → ℕ → List ℕ → List ℕ
unfolding align_to
write_run [] element buffer = buffer
write_run (v ∷ vs) element buffer = align_to element buffer ++ elements element (v ∷ vs)

-- f64_seq with element 8, f32_seq with element 4.
unfoldable pub write_seq : List ℕ → ℕ → List ℕ → List ℕ
unfolding write_run write_u32
write_seq vs element buffer = write_run vs element (write_u32 (length vs % 2 ^ 32) buffer)

unfoldable pub write_b_seq : List Bool → List ℕ → List ℕ
unfolding write_u32
write_b_seq vs buffer = write_u32 (length vs % 2 ^ 32) buffer ++ map (λ v. if v then 1 else 0) vs

unfoldable pub write_bytes : List ℕ → List ℕ → List ℕ
unfolding write_u32
write_bytes content buffer = write_u32 (length content % 2 ^ 32) buffer ++ content
