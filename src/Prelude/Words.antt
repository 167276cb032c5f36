-- ===== src/Prelude/Words.antt =====
-- Machine words as native numbers: the counters of the program, with their wrap-around.
use Prim.Native.Nat.{ℕ, ◌+◌, ◌-◌, ◌%◌, ◌^◌}

-- uint64_t ++x, x + y and x - y.
abbrev pub inc64 : ℕ → ℕ
inc64 x = (x + 1) % 2 ^ 64

abbrev pub add64 : ℕ → ℕ → ℕ
add64 x y = (x + y) % 2 ^ 64

abbrev pub sub64 : ℕ → ℕ → ℕ
sub64 x y = (x + 2 ^ 64 - y) % 2 ^ 64

-- uint32_t ++x and --x.
abbrev pub inc32 : ℕ → ℕ
inc32 x = (x + 1) % 2 ^ 32

abbrev pub dec32 : ℕ → ℕ
dec32 x = (x + (2 ^ 32 - 1)) % 2 ^ 32

-- ~0u, the index that stands for "no slot" in every ring, and ~0ull.
abbrev pub no_slot : ℕ
no_slot = 0xffff_ffff

abbrev pub no_timestamp : ℕ
no_timestamp = 0xffff_ffff_ffff_ffff
