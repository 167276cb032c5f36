-- ===== src/Cdr/Layout.antt =====
-- Where the writer puts a value is where the reader looks for it.
use perception_pipeline.Prelude.{
  List, [], ap, arith, drop, false, if◌then◌else◌, length, length-append, refl, suc, take, true,
  zero, ℕ, ◌%◌, ◌*◌, ◌++◌, ◌-◌, ◌/◌, ◌<◌, ◌==◌, ◌∷◌, ◌≡◌, ◌≤◌,
}
use perception_pipeline.Cdr.{origin, le_bytes, from_le, aligned}
use perception_pipeline.Cdr.Writer.{pad_to, align_to}

unfoldable pub bound : ℕ → ℕ
bound zero = 1
bound (suc n) = 256 * bound n

pub from_le-le_bytes : (n v : ℕ) → v < bound n → from_le (le_bytes n v) ≡ v
unfolding bound
from_le-le_bytes zero v h = omega arith
from_le-le_bytes (suc n) v h = omega (arith, from_le-le_bytes n (v / 256) (omega arith))

pub length-le_bytes : (n v : ℕ) → length (le_bytes n v) ≡ n
length-le_bytes zero v = refl
length-le_bytes (suc n) v = omega (arith, length-le_bytes n (v / 256))

pub take-append : (xs ys : List ℕ) → take (length xs) (xs ++ ys) ≡ xs
take-append [] ys = refl
take-append (x ∷ xs) ys = ap (λ zs. x ∷ zs) (take-append xs ys)

pub drop-append : (xs ys : List ℕ) → drop (length xs) (xs ++ ys) ≡ ys
drop-append [] ys = refl
drop-append (x ∷ xs) ys = drop-append xs ys

pad_4-length :
    (fuel : ℕ) (b : List ℕ)
    → 4 ≤ length b
    → (4 - (length b - 4) % 4) % 4 ≤ fuel
    → length (pad_to fuel 4 b) ≡ aligned (length b) 4
unfolding pad_to
pad_4-length zero b h f = omega arith
pad_4-length (suc fuel) b h f =
    elim ((length b - origin) % 4 == 0)
        as (λ t.
          ((length b - origin) % 4 == 0) ≡ t
          → length (if t then b else pad_to fuel 4 (b ++ 0 ∷ [])) ≡ aligned (length b) 4) [
            | true ↦ λ e. ground arith
            | false ↦ λ e.
                let more = length-append {A = ℕ} b (0 ∷ []) in
                let there : length (pad_to fuel 4 (b ++ 0 ∷ []))
                    ≡ aligned (length (b ++ 0 ∷ [])) 4 =
                  pad_4-length fuel (b ++ 0 ∷ []) (omega (arith, more)) (ground (arith, more)) in
                ground (arith, there, more)
          ]
      refl

pad_8-length :
    (fuel : ℕ) (b : List ℕ)
    → 4 ≤ length b
    → (8 - (length b - 4) % 8) % 8 ≤ fuel
    → length (pad_to fuel 8 b) ≡ aligned (length b) 8
unfolding pad_to
pad_8-length zero b h f = omega arith
pad_8-length (suc fuel) b h f =
    elim ((length b - origin) % 8 == 0)
        as (λ t.
          ((length b - origin) % 8 == 0) ≡ t
          → length (if t then b else pad_to fuel 8 (b ++ 0 ∷ [])) ≡ aligned (length b) 8) [
            | true ↦ λ e. ground arith
            | false ↦ λ e.
                let more = length-append {A = ℕ} b (0 ∷ []) in
                let there : length (pad_to fuel 8 (b ++ 0 ∷ []))
                    ≡ aligned (length (b ++ 0 ∷ [])) 8 =
                  pad_8-length fuel (b ++ 0 ∷ []) (omega (arith, more)) (ground (arith, more)) in
                ground (arith, there, more)
          ]
      refl

pub align_to-1 : (b : List ℕ) → 4 ≤ length b → length (align_to 1 b) ≡ aligned (length b) 1
unfolding align_to pad_to
align_to-1 b h = ground arith

pub align_to-4 : (b : List ℕ) → 4 ≤ length b → length (align_to 4 b) ≡ aligned (length b) 4
unfolding align_to
align_to-4 b h = pad_4-length 4 b h (omega arith)

pub align_to-8 : (b : List ℕ) → 4 ≤ length b → length (align_to 8 b) ≡ aligned (length b) 8
unfolding align_to
align_to-8 b h = pad_8-length 8 b h (omega arith)
