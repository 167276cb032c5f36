-- ===== src/Cdr/Agrees.antt =====
-- Writers and readers of parts of a message that belong together.
use perception_pipeline.Cdr.RoundTrip.{
  read_bytes-write_bytes, read_str-write_str, read_u32-write_u32, reading, read_u8-write_u8,
  read_u64-write_u64,
}
use perception_pipeline.Cdr.Kept.{Kept-length, kept, Kept-again, Kept, raw-Kept}
use perception_pipeline.Cdr.{
  encapsulation, Read, read_bytes, read_u8, read_u64, read_str, read_u32, open_reader, Reader,
}
use perception_pipeline.Cdr.Writer.{write_bytes, write_u64, write_u32, write_u8, write_str}
use perception_pipeline.Prelude.{
  List, [], ap, append-nil, append_assoc, arith, false, length, ltb, refl, some, sym, ℕ, ◌%◌, ◌++◌,
  ◌+◌, ◌<◌, ◌^◌, ◌∙◌, ◌∷◌, ◌≡◌, ◌≤◌,
}

-- Reading in sequence, for do blocks.
infixl 5 ◌>>=◌
abbrev pub ◌>>=◌ {ℓ κ} :
    {A : Type ℓ} {B : Type κ} → (Reader → Read A) → (A → Reader → Read B) → Reader → Read B
(p >>= k) r = k (p r).value (p r).reader

infixl 5 ◌>>◌
abbrev pub ◌>>◌ {ℓ κ} :
    {A : Type ℓ} {B : Type κ} → (Reader → Read A) → (Reader → Read B) → Reader → Read B
(p >> k) r = k (p r).reader

abbrev pub pure {ℓ} : {A : Type ℓ} → A → Reader → Read A
pure v r = record { value = v; reader = r }

-- `p` reads `v` where `w` has written, and ends where `w` ended; `w` keeps what was there.
pub record Agrees {ℓ} {A : Type ℓ} (p : Reader → Read A) (v : A) (w : List ℕ → List ℕ)
    : Type ℓ where
  pub keeps : (b : List ℕ) → Kept b (w b)
  pub reads :
      (b rest content : List ℕ)
      → content ≡ w b ++ rest
      → 4 ≤ length b
      → p (reading content b) ≡ record { value = v; reader = reading content (w b) }

module _ {ℓ κ} {A : Type ℓ} {B : Type κ} where
  pub Agrees-bind :
      {p : Reader → Read A} {v : A} {w : List ℕ → List ℕ} (k : A → Reader → Read B) {u : B}
      {x : List ℕ → List ℕ}
      → Agrees p v w
      → Agrees (k v) u x
      → Agrees (p >>= k) u (λ b. x (w b))
  Agrees-bind {p} {v} {w} k {u} {x} first second = record {
    keeps = λ b. Kept-again b (w b) (x (w b)) (first.keeps b) (second.keeps (w b));
    reads = λ b rest content c h.
        let after = second.keeps (w b) in
        let here =
          first.reads b (after.more ++ rest) content
            (c ∙ (ap (λ xs. xs ++ rest) after.same ∙ append_assoc (w b) after.more rest)) h in
        let long = Kept-length b (w b) (first.keeps b) in
        ap (λ q. k q.value q.reader) here ∙ second.reads (w b) rest content c (omega arith);
  }

module _ {ℓ} {A : Type ℓ} where
  pub Agrees-pure : (v : A) → Agrees (pure v) v (λ b. b)
  Agrees-pure v = record {
    keeps = λ b. record { more = []; same = sym (append-nil b) };
    reads = λ b rest content c h. refl;
  }

  -- A message that `w` wrote is read as a whole.
  pub Agrees-opens :
      {p : Reader → Read A} {v : A} {w : List ℕ → List ℕ}
      → Agrees p v w
      → (p (open_reader (w encapsulation))
          ≡ record { value = v; reader = reading (w encapsulation) (w encapsulation) })
  unfolding open_reader
  Agrees-opens {p} {v} {w} a =
      let c = w encapsulation in
      let long = Kept-length encapsulation c (a.keeps encapsulation) in
      let enough : ltb (length c) 4 ≡ false = ground arith in
      rw enough (a.reads encapsulation [] c (sym (append-nil c)) (omega arith))

module _ {ℓ} {A : Type ℓ} where
  pub Agrees-at :
      {p : Reader → Read A} {v : A} {w : List ℕ → List ℕ} (b content : List ℕ)
      → Agrees p v w
      → Kept encapsulation b
      → Kept (w b) content
      → (p (reading content b) ≡ record { value = v; reader = reading content (w b) })
  Agrees-at b content a start rest =
      a.reads b rest.more content rest.same (omega (arith, Kept-length encapsulation b start))

pub Agrees-u8 : (v : ℕ) → v < 256 → Agrees read_u8 v (write_u8 v)
unfolding write_u8
Agrees-u8 v h = record {
  keeps = λ b. raw-Kept v 1 1 b;
  reads = λ b rest content c l. read_u8-write_u8 v b rest content c l h;
}

pub Agrees-u32 : (v : ℕ) → v < 2 ^ 32 → Agrees read_u32 v (write_u32 v)
unfolding write_u32
Agrees-u32 v h = record {
  keeps = λ b. raw-Kept v 4 4 b;
  reads = λ b rest content c l. read_u32-write_u32 v b rest content c l h;
}

pub Agrees-u64 : (v : ℕ) → v < 2 ^ 64 → Agrees read_u64 v (write_u64 v)
unfolding write_u64
Agrees-u64 v h = record {
  keeps = λ b. raw-Kept v 8 8 b;
  reads = λ b rest content c l. read_u64-write_u64 v b rest content c l h;
}

pub Agrees-str : (v : List ℕ) → length v + 1 < 2 ^ 32 → Agrees read_str v (write_str v)
unfolding write_str write_u32
Agrees-str v h = record {
  keeps = λ b. Kept-again b _ _ (raw-Kept ((length v + 1) % 2 ^ 32) 4 4 b) (kept _ (v ++ 0 ∷ []));
  reads = λ b rest content c l. read_str-write_str v b rest content c l h;
}

pub Agrees-bytes : (v : List ℕ) → length v < 2 ^ 32 → Agrees read_bytes (some v) (write_bytes v)
unfolding write_bytes write_u32
Agrees-bytes v h = record {
  keeps = λ b. Kept-again b _ _ (raw-Kept (length v % 2 ^ 32) 4 4 b) (kept _ v);
  reads = λ b rest content c l. read_bytes-write_bytes v b rest content c l h;
}
