-- ===== src/Cdr.antt =====
-- recording/include/cdr_writer.hpp and recording/include/cdr_reader.hpp: the CDR wire form of the recorded
-- messages. A buffer is a list of octets, an integer its unsigned value, and a float or double its bit
-- pattern; the host is little-endian. reserve and capacity concern only the allocation.
pub mod Writer
pub mod Layout
pub mod RoundTrip
pub mod Kept
pub mod Messages
pub mod Agrees
pub mod Runs
mod Tests
use perception_pipeline.Prelude.{
  Bool, List, Option, [], count, drop, false, if◌then◌else◌, length, ltb, none, not, some, suc,
  take, true, zero, ℕ, ◌%◌, ◌&&◌, ◌*◌, ◌+◌, ◌-◌, ◌/◌, ◌==◌, ◌||◌, ◌∷◌,
}

abbrev pub origin : ℕ
origin = 4

-- What memcpy writes of an integer of `n` bytes, and reads back.
abbrev pub le_bytes : ℕ → ℕ → List ℕ
le_bytes zero v = []
le_bytes (suc n) v = v % 256 ∷ le_bytes n (v / 256)

abbrev pub from_le : List ℕ → ℕ
from_le [] = 0
from_le (b ∷ bs) = b + 256 * from_le bs

abbrev pub encapsulation : List ℕ
encapsulation = 0 ∷ 1 ∷ 0 ∷ 0 ∷ []

pub record Reader : Type 0 where
  pub content : List ℕ
  pub at : ℕ
  pub ok : Bool

-- A value read, and the reader behind it.
pub record Read {ℓ} (A : Type ℓ) : Type ℓ where
  pub value : A
  pub reader : Reader

unfoldable pub open_reader : List ℕ → Reader
open_reader content =
    if ltb (length content) 4
    then record { content = content; at = 0; ok = false }
    else record { content = content; at = 4; ok = true }

abbrev pub size : Reader → ℕ
size r = length r.content

abbrev pub fail : Reader → Reader
fail r = record r { ok = false }

-- kOrigin + (at - kOrigin + align - 1) / align * align
abbrev pub aligned : ℕ → ℕ → ℕ
aligned at alignment = origin + (at - origin + alignment - 1) / alignment * alignment

unfoldable pub read : ℕ → ℕ → Reader → Read ℕ
read n alignment r =
    let start = aligned r.at alignment in
    if not r.ok || ltb (size r) (start + n) then record { value = 0; reader = fail r } else record {
      value = from_le (take n (drop start r.content));
      reader = record r { at = start + n };
    }

unfoldable pub read_u8 : Reader → Read ℕ
unfolding read
read_u8 r = read 1 1 r

unfoldable pub read_b : Reader → Read Bool
unfolding read_u8
read_b r = record { value = not ((read_u8 r).value == 0); reader = (read_u8 r).reader }

unfoldable pub read_u32 : Reader → Read ℕ
unfolding read
read_u32 r = read 4 4 r

unfoldable pub read_u64 : Reader → Read ℕ
unfolding read
read_u64 r = read 8 8 r

abbrev pub split_le : ℕ → ℕ → List ℕ → List ℕ
split_le element zero bs = []
split_le element (suc n) bs = from_le (take element bs) ∷ split_le element n (drop element bs)

-- run, for f64_array and f32_array: what `out` holds afterwards.
unfoldable pub read_run : ℕ → ℕ → List ℕ → Reader → Read (List ℕ)
read_run element zero out r = record { value = out; reader = r }
read_run element (suc k) out r =
    let start = aligned r.at element in
    if not r.ok || ltb (size r) (start + element * suc k)
    then record { value = out; reader = fail r }
    else record {
      value = split_le element (suc k) (drop start r.content);
      reader = record r { at = start + element * suc k };
    }

-- f64_seq with element 8, f32_seq with element 4; they return whether the reader is ok.
unfoldable pub read_seq : ℕ → ℕ → List ℕ → Reader → Read (List ℕ)
unfolding read_run read_u32
read_seq element count out r =
    let counted = (read_u32 r).reader in
    if not counted.ok || not ((read_u32 r).value == count)
    then record { value = out; reader = fail counted }
    else read_run element count out counted

-- The rest of str and of bytes, behind the length.
abbrev pub str_body : Reader → ℕ → Read (List ℕ)
str_body r len =
    if not r.ok || len == 0 || ltb (size r) (r.at + len)
    then record { value = []; reader = fail r }
    else record {
      value = take (len - 1) (drop r.at r.content);
      reader = record r { at = r.at + len };
    }

unfoldable pub read_str : Reader → Read (List ℕ)
unfolding read_u32
read_str r = str_body (read_u32 r).reader (read_u32 r).value

abbrev pub bytes_body : Reader → ℕ → Read (Option (List ℕ))
bytes_body r n =
    if not r.ok || ltb (size r) (r.at + n)
    then record { value = none; reader = fail r }
    else record { value = some (take n (drop r.at r.content)); reader = record r { at = r.at + n } }

unfoldable pub read_bytes : Reader → Read (Option (List ℕ))
unfolding read_u32
read_bytes r = bytes_body (read_u32 r).reader (read_u32 r).value

abbrev pub exhausted : Reader → Bool
exhausted r = r.ok && r.at == size r
