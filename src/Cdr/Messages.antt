-- ===== src/Cdr/Messages.antt =====
-- Whole messages of recording/include/cdr_writer.hpp and recording/include/cdr_reader.hpp: fields of every kind
-- that the reader has a method for, in any order. i32, i64, f32 and f64 are the numbers of
-- their width; the reader has no method for the b_seq of the writer.
use perception_pipeline.Cdr.Layout.{bound}
use perception_pipeline.Prelude.{
  Bool, List, Option, [], arith, false, length, length-replicate, ltb, map, none, not, replicate,
  some, true, ℕ, ◌&&◌, ◌+◌, ◌==◌, ◌^◌, ◌∷◌, ◌≡◌,
}
use perception_pipeline.Cdr.{
  exhausted, encapsulation, open_reader, Reader, Read, read_u8, read_b, read_u32, read_u64,
  read_str, read_bytes, read_run, read_seq,
}
use perception_pipeline.Cdr.Writer.{
  write_u8, write_b, write_u32, write_u64, write_str, write_bytes, write_run, write_seq,
}
use perception_pipeline.Cdr.RoundTrip.{reading}
use perception_pipeline.Cdr.Agrees.{
  Agrees, Agrees-bind, Agrees-pure, Agrees-opens, Agrees-u8, Agrees-u32, Agrees-u64, Agrees-str,
  Agrees-bytes, pure, ◌>>=◌,
}
use perception_pipeline.Cdr.Runs.{
  AllBelow, none_left, one_more, Agrees-f64_array, Agrees-f32_array, Agrees-seq,
}

pub data Field : Type 0 where
  a_u8 : ℕ → Field
  a_b : Bool → Field
  a_u32 : ℕ → Field
  a_u64 : ℕ → Field
  a_str : List ℕ → Field
  a_bytes : List ℕ → Field
  a_f64_array : List ℕ → Field
  a_f32_array : List ℕ → Field
  a_f64_seq : List ℕ → Field
  a_f32_seq : List ℕ → Field

-- What a caller of the reader asks for: with an array or a sequence of floats, its length.
pub data Kind : Type 0 where
  u8_kind b_kind u32_kind u64_kind str_kind bytes_kind : Kind
  f64_array_kind f32_array_kind f64_seq_kind f32_seq_kind : ℕ → Kind

abbrev pub kind_of : Field → Kind
kind_of (a_u8 v) = u8_kind
kind_of (a_b v) = b_kind
kind_of (a_u32 v) = u32_kind
kind_of (a_u64 v) = u64_kind
kind_of (a_str xs) = str_kind
kind_of (a_bytes xs) = bytes_kind
kind_of (a_f64_array vs) = f64_array_kind (length vs)
kind_of (a_f32_array vs) = f32_array_kind (length vs)
kind_of (a_f64_seq vs) = f64_seq_kind (length vs)
kind_of (a_f32_seq vs) = f32_seq_kind (length vs)

abbrev all_below : ℕ → List ℕ → Bool
all_below n [] = true
all_below n (v ∷ vs) = ltb v n && all_below n vs

-- The values that fit the wire's integers, floats and lengths.
abbrev pub fits : Field → Bool
fits (a_u8 v) = ltb v 256
fits (a_b v) = true
fits (a_u32 v) = ltb v (2 ^ 32)
fits (a_u64 v) = ltb v (2 ^ 64)
fits (a_str xs) = ltb (length xs + 1) (2 ^ 32)
fits (a_bytes xs) = ltb (length xs) (2 ^ 32)
fits (a_f64_array vs) = all_below (2 ^ 64) vs
fits (a_f32_array vs) = all_below (2 ^ 32) vs
fits (a_f64_seq vs) = all_below (2 ^ 64) vs && ltb (length vs) (2 ^ 32)
fits (a_f32_seq vs) = all_below (2 ^ 32) vs && ltb (length vs) (2 ^ 32)

abbrev pub all_fit : List Field → Bool
all_fit [] = true
all_fit (f ∷ fs) = fits f && all_fit fs

unfoldable pub write_field : Field → List ℕ → List ℕ
unfolding write_u8 write_b write_u32 write_u64 write_str write_bytes write_run write_seq
write_field (a_u8 v) b = write_u8 v b
write_field (a_b v) b = write_b v b
write_field (a_u32 v) b = write_u32 v b
write_field (a_u64 v) b = write_u64 v b
write_field (a_str xs) b = write_str xs b
write_field (a_bytes xs) b = write_bytes xs b
write_field (a_f64_array vs) b = write_run vs 8 b
write_field (a_f32_array vs) b = write_run vs 4 b
write_field (a_f64_seq vs) b = write_seq vs 8 b
write_field (a_f32_seq vs) b = write_seq vs 4 b

unfoldable pub write_fields : List Field → List ℕ → List ℕ
unfolding write_field
write_fields [] b = b
write_fields (f ∷ fs) b = write_fields fs (write_field f b)

abbrev the_octets : Option (List ℕ) → List ℕ
the_octets none = []
the_octets (some xs) = xs

-- A read of a field of the kind that the caller expects; an array to fill holds zeros before.
unfoldable pub read_field : Kind → Reader → Read Field
unfolding read_u8 read_b read_u32 read_u64 read_str read_bytes read_run read_seq
read_field u8_kind = read_u8 >>= (λ v. pure (a_u8 v))
read_field b_kind = read_b >>= (λ v. pure (a_b v))
read_field u32_kind = read_u32 >>= (λ v. pure (a_u32 v))
read_field u64_kind = read_u64 >>= (λ v. pure (a_u64 v))
read_field str_kind = read_str >>= (λ v. pure (a_str v))
read_field bytes_kind = read_bytes >>= (λ v. pure (a_bytes (the_octets v)))
read_field (f64_array_kind n) = read_run 8 n (replicate n 0) >>= (λ vs. pure (a_f64_array vs))
read_field (f32_array_kind n) = read_run 4 n (replicate n 0) >>= (λ vs. pure (a_f32_array vs))
read_field (f64_seq_kind n) = read_seq 8 n (replicate n 0) >>= (λ vs. pure (a_f64_seq vs))
read_field (f32_seq_kind n) = read_seq 4 n (replicate n 0) >>= (λ vs. pure (a_f32_seq vs))

unfoldable pub read_fields : List Kind → Reader → Read (List Field)
unfolding read_field
read_fields [] = pure []
read_fields (k ∷ ks) = read_field k >>= (λ f. read_fields ks >>= (λ fs. pure (f ∷ fs)))

all_below-AllBelow : (n : ℕ) (vs : List ℕ) → all_below n vs ≡ true → AllBelow n vs
all_below-AllBelow n [] e = none_left
all_below-AllBelow n (v ∷ vs) e = one_more (ground arith) (all_below-AllBelow n vs (ground arith))

doubles : (vs : List ℕ) → all_below (2 ^ 64) vs ≡ true → AllBelow (bound 8) vs
unfolding bound
doubles vs e = all_below-AllBelow (2 ^ 64) vs e

floats : (vs : List ℕ) → all_below (2 ^ 32) vs ≡ true → AllBelow (bound 4) vs
unfolding bound
floats vs e = all_below-AllBelow (2 ^ 32) vs e

Agrees-b : (v : Bool) → Agrees read_b v (write_b v)
unfolding read_b write_b
Agrees-b true =
    Agrees-bind (λ n. pure (not (n == 0))) (Agrees-u8 1 (omega arith)) (Agrees-pure true)
Agrees-b false =
    Agrees-bind (λ n. pure (not (n == 0))) (Agrees-u8 0 (omega arith)) (Agrees-pure false)

-- The read of each kind agrees with its write.
Agrees-field : (f : Field) → fits f ≡ true → Agrees (read_field (kind_of f)) f (write_field f)
unfolding read_field write_field
Agrees-field (a_u8 v) h =
    Agrees-bind (λ x. pure (a_u8 x)) (Agrees-u8 v (ground arith)) (Agrees-pure _)
Agrees-field (a_b v) h = Agrees-bind (λ x. pure (a_b x)) (Agrees-b v) (Agrees-pure _)
Agrees-field (a_u32 v) h =
    Agrees-bind (λ x. pure (a_u32 x)) (Agrees-u32 v (ground arith)) (Agrees-pure _)
Agrees-field (a_u64 v) h =
    Agrees-bind (λ x. pure (a_u64 x)) (Agrees-u64 v (ground arith)) (Agrees-pure _)
Agrees-field (a_str xs) h =
    Agrees-bind (λ x. pure (a_str x)) (Agrees-str xs (ground arith)) (Agrees-pure _)
Agrees-field (a_bytes xs) h =
    Agrees-bind (λ v. pure (a_bytes (the_octets v))) (Agrees-bytes xs (ground arith))
      (Agrees-pure _)
Agrees-field (a_f64_array vs) h =
    Agrees-bind (λ x. pure (a_f64_array x))
      (Agrees-f64_array vs _ (doubles vs h) (length-replicate (length vs) 0)) (Agrees-pure _)
Agrees-field (a_f32_array vs) h =
    Agrees-bind (λ x. pure (a_f32_array x))
      (Agrees-f32_array vs _ (floats vs h) (length-replicate (length vs) 0)) (Agrees-pure _)
Agrees-field (a_f64_seq vs) h =
    let below : all_below (2 ^ 64) vs ≡ true = ground arith in
    Agrees-bind (λ x. pure (a_f64_seq x))
      (Agrees-seq 8 vs _ (Agrees-f64_array vs _ (doubles vs below) (length-replicate (length vs) 0))
        (ground arith))
      (Agrees-pure _)
Agrees-field (a_f32_seq vs) h =
    let below : all_below (2 ^ 32) vs ≡ true = ground arith in
    Agrees-bind (λ x. pure (a_f32_seq x))
      (Agrees-seq 4 vs _ (Agrees-f32_array vs _ (floats vs below) (length-replicate (length vs) 0))
        (ground arith))
      (Agrees-pure _)

Agrees-fields :
    (fs : List Field)
    → all_fit fs ≡ true
    → Agrees (read_fields (map kind_of fs)) fs (write_fields fs)
unfolding read_fields write_fields
Agrees-fields [] h = Agrees-pure []
Agrees-fields (f ∷ fs) h =
    Agrees-bind (λ f'. read_fields (map kind_of fs) >>= (λ fs'. pure (f' ∷ fs')))
      (Agrees-field f (ground arith))
      (Agrees-bind (λ fs'. pure (f ∷ fs')) (Agrees-fields fs (ground arith)) (Agrees-pure (f ∷ fs)))

-- A message that the writer makes of numbers, booleans, strings, octets, and fixed arrays and
-- sequences of floats, in any order, whose values and lengths fit their wire types, is read back
-- by the reader as these fields, when asked for their kinds (with the lengths of the arrays and
-- sequences of floats) in order, and the reader is then ok and at the end of the message.
pub read_fields-write_fields :
    (fs : List Field)
    → all_fit fs ≡ true
    → (read_fields (map kind_of fs) (open_reader (write_fields fs encapsulation)) ≡ record {
      value = fs;
      reader = reading (write_fields fs encapsulation) (write_fields fs encapsulation);
    })
      × (exhausted (reading (write_fields fs encapsulation) (write_fields fs encapsulation)) ≡ true)
read_fields-write_fields fs l = (Agrees-opens (Agrees-fields fs l), ground arith)
