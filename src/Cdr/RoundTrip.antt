-- ===== src/Cdr/RoundTrip.antt =====
-- What CdrWriter writes, CdrReader reads back, field after field.
use perception_pipeline.Prelude.{
  List, [], ap, append_assoc, arith, drop, false, length, length-append, ltb, refl, some, sym, take,
  true, ℕ, ◌%◌, ◌++◌, ◌+◌, ◌-◌, ◌<◌, ◌==◌, ◌^◌, ◌∙◌, ◌∷◌, ◌≡◌, ◌≤◌,
}
use perception_pipeline.Cdr.{
  le_bytes, aligned, Reader, read, read_u8, read_u32, read_u64, read_str, str_body, read_bytes,
  bytes_body,
}
use perception_pipeline.Cdr.Writer.{
  align_to, raw, write_u8, write_u32, write_u64, write_str, write_bytes,
}
use perception_pipeline.Cdr.Layout.{
  bound, from_le-le_bytes, length-le_bytes, take-append, drop-append, align_to-1, align_to-4,
  align_to-8,
}

-- The reader of a message, at the end of the part `b`.
abbrev pub reading : List ℕ → List ℕ → Reader
reading content b = record { content = content; at = length b; ok = true }

read-found :
    (n a v : ℕ) (pre rest content b : List ℕ)
    → content ≡ pre ++ (le_bytes n v ++ rest)
    → length pre ≡ aligned (length b) a
    → v < bound n
    → read n a (reading content b) ≡ record {
      value = v;
      reader = record { content = content; at = aligned (length b) a + n; ok = true };
    }
unfolding read
read-found n a v pre rest content b c l h =
    let width = length-le_bytes n v in
    let whole : length content ≡ length pre + (n + length rest) = omega (
      arith,
      ap length c,
      length-append {A = ℕ} pre (le_bytes n v ++ rest),
      length-append {A = ℕ} (le_bytes n v) rest,
      width,
    ) in
    let inside : ltb (length content) (aligned (length b) a + n) ≡ false = ground arith in
    let rest_at : drop (aligned (length b) a) content ≡ le_bytes n v ++ rest =
      ap (λ m. drop m content) (sym l)
      ∙ (ap (drop (length pre)) c ∙ drop-append pre (le_bytes n v ++ rest)) in
    let taken : take n (le_bytes n v ++ rest) ≡ le_bytes n v =
      ap (λ m. take m (le_bytes n v ++ rest)) (sym width) ∙ take-append (le_bytes n v) rest in
    rw inside (rw rest_at (rw taken (rw (from_le-le_bytes n v h) refl)))

pub length-raw :
    (v n a : ℕ) (b : List ℕ)
    → length (align_to a b) ≡ aligned (length b) a
    → length (raw v n a b) ≡ aligned (length b) a + n
unfolding raw
length-raw v n a b l =
    omega (arith, l, length-append {A = ℕ} (align_to a b) (le_bytes n v), length-le_bytes n v)

read-raw :
    (v n a : ℕ) (b rest content : List ℕ)
    → content ≡ raw v n a b ++ rest
    → length (align_to a b) ≡ aligned (length b) a
    → v < bound n
    → read n a (reading content b) ≡ record { value = v; reader = reading content (raw v n a b) }
unfolding raw
read-raw v n a b rest content c l h =
    read-found n a v (align_to a b) rest content b
      (c ∙ append_assoc (align_to a b) (le_bytes n v) rest) l h
    ∙ ap (λ m. record { value = v; reader = record { content = content; at = m; ok = true } })
        (sym (length-raw v n a b l))

bound_1 : bound 1 ≡ 256
unfolding bound
bound_1 = refl

bound_4 : bound 4 ≡ 2 ^ 32
unfolding bound
bound_4 = refl

bound_8 : bound 8 ≡ 2 ^ 64
unfolding bound
bound_8 = refl

pub read_u32-write_u32 :
    (v : ℕ) (b rest content : List ℕ)
    → content ≡ write_u32 v b ++ rest
    → 4 ≤ length b
    → v < 2 ^ 32
    → read_u32 (reading content b) ≡ record { value = v; reader = reading content (write_u32 v b) }
unfolding read_u32 write_u32
read_u32-write_u32 v b rest content c h l =
    read-raw v 4 4 b rest content c (align_to-4 b h) (omega (arith, bound_4))

pub read_u64-write_u64 :
    (v : ℕ) (b rest content : List ℕ)
    → content ≡ write_u64 v b ++ rest
    → 4 ≤ length b
    → v < 2 ^ 64
    → read_u64 (reading content b) ≡ record { value = v; reader = reading content (write_u64 v b) }
unfolding read_u64 write_u64
read_u64-write_u64 v b rest content c h l =
    read-raw v 8 8 b rest content c (align_to-8 b h) (omega (arith, bound_8))

pub read_u8-write_u8 :
    (v : ℕ) (b rest content : List ℕ)
    → content ≡ write_u8 v b ++ rest
    → 4 ≤ length b
    → v < 256
    → read_u8 (reading content b) ≡ record { value = v; reader = reading content (write_u8 v b) }
unfolding read_u8 write_u8
read_u8-write_u8 v b rest content c h l =
    read-raw v 1 1 b rest content c (align_to-1 b h) (omega (arith, bound_1))

-- The octets behind a length.
bytes_body-found :
    (content pre xs rest : List ℕ)
    → content ≡ pre ++ (xs ++ rest)
    → bytes_body (reading content pre) (length xs)
      ≡ record { value = some xs; reader = reading content (pre ++ xs) }
bytes_body-found content pre xs rest c =
    let whole = ap length c in
    let inside : ltb (length content) (length pre + length xs) ≡ false =
      ground
        (arith, whole, length-append {A = ℕ} pre (xs ++ rest), length-append {A = ℕ} xs rest) in
    let taken : take (length xs) (drop (length pre) content) ≡ xs =
      ap (λ ys. take (length xs) (drop (length pre) ys)) c
      ∙ (ap (take (length xs)) (drop-append pre (xs ++ rest)) ∙ take-append xs rest) in
    rw inside (rw taken (rw (length-append {A = ℕ} pre xs) refl))

str_body-found :
    (content pre xs rest : List ℕ)
    → content ≡ pre ++ ((xs ++ 0 ∷ []) ++ rest)
    → str_body (reading content pre) (length xs + 1)
      ≡ record { value = xs; reader = reading content (pre ++ (xs ++ 0 ∷ [])) }
str_body-found content pre xs rest c =
    let whole = ap length c in
    let more = length-append {A = ℕ} xs (0 ∷ []) in
    let some_left : (length xs + 1 == 0) ≡ false = ground arith in
    let inside : ltb (length content) (length pre + (length xs + 1)) ≡ false = ground (
      arith,
      whole,
      length-append {A = ℕ} pre ((xs ++ 0 ∷ []) ++ rest),
      length-append {A = ℕ} (xs ++ 0 ∷ []) rest,
      more,
    ) in
    let less : length xs + 1 - 1 ≡ length xs = omega arith in
    let after : drop (length pre) content ≡ xs ++ (0 ∷ [] ++ rest) =
      ap (drop (length pre)) c
      ∙ (drop-append pre ((xs ++ 0 ∷ []) ++ rest) ∙ append_assoc xs (0 ∷ []) rest) in
    let ends : length (pre ++ (xs ++ 0 ∷ [])) ≡ length pre + (length xs + 1) =
      omega (arith, length-append {A = ℕ} pre (xs ++ 0 ∷ []), more) in
    rw some_left
      (rw inside (rw less (rw after (rw (take-append xs (0 ∷ [] ++ rest)) (rw ends refl)))))

-- A message that goes on with a uint8 sequence of fewer than 2 ^ 32 octets, as bytes writes it behind at
-- least the encapsulation header, is read by bytes as that sequence, up to its end.
pub read_bytes-write_bytes :
    (xs b rest content : List ℕ)
    → content ≡ write_bytes xs b ++ rest
    → 4 ≤ length b
    → length xs < 2 ^ 32
    → read_bytes (reading content b)
      ≡ record { value = some xs; reader = reading content (write_bytes xs b) }
unfolding read_bytes write_bytes
read_bytes-write_bytes xs b rest content c h l =
    let n = length xs % 2 ^ 32 in
    let exact : n ≡ length xs = omega arith in
    let w = write_u32 n b in
    let behind : content ≡ w ++ (xs ++ rest) = c ∙ append_assoc w xs rest in
    ap (λ q. bytes_body q.reader q.value)
      (read_u32-write_u32 n b (xs ++ rest) content behind h (omega arith))
    ∙ (ap (bytes_body (reading content w)) exact ∙ bytes_body-found content w xs rest behind)

-- A message that goes on with a string of fewer than 2 ^ 32 - 1 octets, as str writes it behind at least
-- the encapsulation header, is read by str as that string, up to the end of its terminator.
pub read_str-write_str :
    (xs b rest content : List ℕ)
    → content ≡ write_str xs b ++ rest
    → 4 ≤ length b
    → length xs + 1 < 2 ^ 32
    → read_str (reading content b)
      ≡ record { value = xs; reader = reading content (write_str xs b) }
unfolding read_str write_str
read_str-write_str xs b rest content c h l =
    let n = (length xs + 1) % 2 ^ 32 in
    let exact : n ≡ length xs + 1 = omega arith in
    let w = write_u32 n b in
    let behind : content ≡ w ++ ((xs ++ 0 ∷ []) ++ rest) = c ∙ append_assoc w (xs ++ 0 ∷ []) rest in
    ap (λ q. str_body q.reader q.value)
      (read_u32-write_u32 n b ((xs ++ 0 ∷ []) ++ rest) content behind h (omega arith))
    ∙ (ap (str_body (reading content w)) exact ∙ str_body-found content w xs rest behind)
