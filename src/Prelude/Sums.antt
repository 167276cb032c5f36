-- ===== src/Prelude/Sums.antt =====
-- Totals over lists of numbers, and how one write moves them.
use Prim.Native.Nat.{ℕ, zero, suc, ◌+◌, ◌≤◌, ◌<◌}
use mathlib.Core.Path.{◌≡◌, refl}
use mathlib.Core.Bool.{◌&&◌}
use mathlib.Core.List.{List, [], ◌∷◌, ◌++◌}
use native.Mathlib.Omega.{arith}
use perception_pipeline.Prelude.Tests.{◌==◌, leb, ltb, if◌then◌else◌}
use perception_pipeline.Prelude.Lists.{length, get_or, set, replicate}

abbrev pub sum : List ℕ → ℕ
sum [] = 0
sum (x ∷ xs) = x + sum xs

abbrev pub nonzero : ℕ → ℕ
nonzero n = if n == 0 then 0 else 1

-- How many entries are not zero.
abbrev pub count_nonzero : List ℕ → ℕ
count_nonzero [] = 0
count_nonzero (x ∷ xs) = nonzero x + count_nonzero xs

-- How often a number occurs.
abbrev pub count : ℕ → List ℕ → ℕ
count a [] = 0
count a (x ∷ xs) = (if x == a then 1 else 0) + count a xs

pub sum-set :
    (xs : List ℕ) (i v : ℕ) → i < length xs → sum (set xs i v) + get_or xs i 0 ≡ sum xs + v
sum-set [] i v h = elim h [ ]
sum-set (x ∷ xs) zero v h = omega arith
sum-set (x ∷ xs) (suc i) v h = omega (arith, sum-set xs i v)

pub count_nonzero-set :
    (xs : List ℕ) (i v : ℕ)
    → i < length xs
    → count_nonzero (set xs i v) + nonzero (get_or xs i 0) ≡ count_nonzero xs + nonzero v
count_nonzero-set [] i v h = elim h [ ]
count_nonzero-set (x ∷ xs) zero v h = omega arith
count_nonzero-set (x ∷ xs) (suc i) v h = omega (arith, count_nonzero-set xs i v)

pub count_nonzero-le-sum : (xs : List ℕ) → count_nonzero xs ≤ sum xs
count_nonzero-le-sum [] = omega arith
count_nonzero-le-sum (x ∷ xs) = ground (arith, count_nonzero-le-sum xs)

pub count_nonzero-le-length : (xs : List ℕ) → count_nonzero xs ≤ length xs
count_nonzero-le-length [] = omega arith
count_nonzero-le-length (x ∷ xs) = ground (arith, count_nonzero-le-length xs)

pub sum-replicate : (n : ℕ) → sum (replicate n 0) ≡ 0
sum-replicate zero = refl
sum-replicate (suc n) = omega (arith, sum-replicate n)

pub count_nonzero-replicate : (n : ℕ) → count_nonzero (replicate n 0) ≡ 0
count_nonzero-replicate zero = refl
count_nonzero-replicate (suc n) = omega (arith, count_nonzero-replicate n)

pub get_or-replicate : (n i : ℕ) → get_or {A = ℕ} (replicate n 0) i 0 ≡ 0
get_or-replicate zero i = refl
get_or-replicate (suc n) zero = refl
get_or-replicate (suc n) (suc i) = get_or-replicate n i

-- One occurrence of `s` goes.
abbrev pub erase_one : ℕ → List ℕ → List ℕ
erase_one s [] = []
erase_one s (x ∷ xs) = if x == s then xs else x ∷ erase_one s xs

pub count-erase_one :
    (s j : ℕ) (xs : List ℕ)
    → 1 ≤ count s xs
    → count j xs ≡ count j (erase_one s xs) + (if s == j then 1 else 0)
count-erase_one s j [] h = elim h [ ]
count-erase_one s j (x ∷ xs) h = ground (arith, count-erase_one s j xs)

pub length-erase_one :
    (s : ℕ) (xs : List ℕ) → 1 ≤ count s xs → length xs ≡ length (erase_one s xs) + 1
length-erase_one s [] h = elim h [ ]
length-erase_one s (x ∷ xs) h = ground (arith, length-erase_one s xs)

pub count-le-length : (s : ℕ) (xs : List ℕ) → count s xs ≤ length xs
count-le-length s [] = omega arith
count-le-length s (x ∷ xs) = ground (arith, count-le-length s xs)

pub count-append : (s : ℕ) (xs ys : List ℕ) → count s (xs ++ ys) ≡ count s xs + count s ys
count-append s [] ys = omega arith
count-append s (x ∷ xs) ys = ground (arith, count-append s xs ys)

-- The `n` numbers from `i` on.
abbrev pub range_from : ℕ → ℕ → List ℕ
range_from i zero = []
range_from i (suc n) = i ∷ range_from (i + 1) n

pub count-range_from :
    (i n j : ℕ) → count j (range_from i n) ≡ (if leb i j && ltb j (i + n) then 1 else 0)
count-range_from i zero j = ground arith
count-range_from i (suc n) j = ground (arith, count-range_from (i + 1) n j)

pub length-range_from : (i n : ℕ) → length (range_from i n) ≡ n
length-range_from i zero = refl
length-range_from i (suc n) = omega (arith, length-range_from (i + 1) n)
