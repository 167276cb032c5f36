-- ===== src/Cdr/Runs.antt =====
-- Runs of floats: the arrays and the sequences of a message.
use perception_pipeline.Cdr.RoundTrip.{reading}
use perception_pipeline.Cdr.Kept.{pad_to-Kept, Kept-length, kept, Kept-again}
use perception_pipeline.Cdr.Layout.{
  align_to-8, align_to-4, from_le-le_bytes, drop-append, take-append, length-le_bytes, bound,
}
use perception_pipeline.Cdr.{aligned, read_run, read_seq, split_le, le_bytes, read_u32}
use perception_pipeline.Cdr.Writer.{pad_to, write_run, write_seq, align_to, write_u32, elements}
use perception_pipeline.Prelude.{
  List, [], ap, append-nil, append_assoc, arith, drop, false, length, length-append, ltb, refl,
  subst, sym, take, true, ℕ, ◌%◌, ◌*◌, ◌++◌, ◌+◌, ◌<◌, ◌==◌, ◌^◌, ◌∙◌, ◌∷◌, ◌≡◌, ◌≤◌,
}
use perception_pipeline.Cdr.Agrees.{Agrees, Agrees-u32}

pub data AllBelow (n : ℕ) : List ℕ → Type 0 where
  none_left : AllBelow n []
  one_more : {v : ℕ} {vs : List ℕ} → v < n → AllBelow n vs → AllBelow n (v ∷ vs)

split_le-elements :
    (e : ℕ) (vs rest : List ℕ)
    → AllBelow (bound e) vs
    → split_le e (length vs) (elements e vs ++ rest) ≡ vs
split_le-elements e [] rest none_left = refl
split_le-elements e (v ∷ vs) rest (one_more h hs) =
    let wide = length-le_bytes e v in
    let joined : elements e (v ∷ vs) ++ rest ≡ le_bytes e v ++ (elements e vs ++ rest) =
      append_assoc (le_bytes e v) (elements e vs) rest in
    let taken : take e (elements e (v ∷ vs) ++ rest) ≡ le_bytes e v =
      ap (take e) joined
      ∙ (ap (λ n. take n (le_bytes e v ++ (elements e vs ++ rest))) (sym wide)
          ∙ take-append (le_bytes e v) (elements e vs ++ rest)) in
    let left : drop e (elements e (v ∷ vs) ++ rest) ≡ elements e vs ++ rest =
      ap (drop e) joined
      ∙ (ap (λ n. drop n (le_bytes e v ++ (elements e vs ++ rest))) (sym wide)
          ∙ drop-append (le_bytes e v) (elements e vs ++ rest)) in
    rw taken
      (rw left (rw (from_le-le_bytes e v h) (ap (λ xs. v ∷ xs) (split_le-elements e vs rest hs))))

pub length-elements : (e : ℕ) (vs : List ℕ) → length (elements e vs) ≡ e * length vs
length-elements e [] = omega arith
length-elements e (v ∷ vs) = omega (
  arith,
  length-elements e vs,
  length-append {A = ℕ} (le_bytes e v) (elements e vs),
  length-le_bytes e v,
)

run-found :
    (e : ℕ) (v : ℕ) (vs out b rest content : List ℕ)
    → content ≡ write_run (v ∷ vs) e b ++ rest
    → length (align_to e b) ≡ aligned (length b) e
    → AllBelow (bound e) (v ∷ vs)
    → (read_run e (length (v ∷ vs)) out (reading content b)
        ≡ record { value = v ∷ vs; reader = reading content (write_run (v ∷ vs) e b) })
unfolding read_run write_run
run-found e v vs out b rest content c l h =
    let pre = align_to e b in
    let es = elements e (v ∷ vs) in
    let behind : content ≡ pre ++ (es ++ rest) = c ∙ append_assoc pre es rest in
    let wide = length-elements e (v ∷ vs) in
    let ends : length (pre ++ es) ≡ aligned (length b) e + e * length (v ∷ vs) =
      omega (arith, length-append {A = ℕ} pre es, wide, l) in
    let inside : ltb (length content) (aligned (length b) e + e * length (v ∷ vs)) ≡ false =
      ground (arith, ap length c, length-append {A = ℕ} (pre ++ es) rest, ends) in
    let after : drop (aligned (length b) e) content ≡ es ++ rest =
      ap (λ n. drop n content) (sym l)
      ∙ (ap (drop (length pre)) behind ∙ drop-append pre (es ++ rest)) in
    rw inside (rw after (rw (split_le-elements e (v ∷ vs) rest h) (rw ends refl)))

module _ (e : ℕ)
    (lands : (b : List ℕ) → 4 ≤ length b → length (align_to e b) ≡ aligned (length b) e) where
  Agrees-run_of :
      (vs out : List ℕ)
      → AllBelow (bound e) vs
      → length out ≡ length vs
      → Agrees (read_run e (length vs) out) vs (write_run vs e)
  unfolding read_run write_run align_to
  Agrees-run_of [] [] h l = record {
    keeps = λ b. record { more = []; same = sym (append-nil b) };
    reads = λ b rest content c k. refl;
  }
  Agrees-run_of [] (o ∷ out) h l = absurd (omega (arith, l))
  Agrees-run_of (v ∷ vs) out h l = record {
    keeps = λ b. Kept-again b (pad_to e e b) _ (pad_to-Kept e e b) (kept (pad_to e e b) _);
    reads = λ b rest content c k. run-found e v vs out b rest content c (lands b k) h;
  }

-- An array of doubles: the fixed-size array that `out` is on both sides.
pub Agrees-f64_array :
    (vs out : List ℕ)
    → AllBelow (bound 8) vs
    → length out ≡ length vs
    → Agrees (read_run 8 (length vs) out) vs (write_run vs 8)
Agrees-f64_array vs out h l = Agrees-run_of 8 align_to-8 vs out h l

pub Agrees-f32_array :
    (vs out : List ℕ)
    → AllBelow (bound 4) vs
    → length out ≡ length vs
    → Agrees (read_run 4 (length vs) out) vs (write_run vs 4)
Agrees-f32_array vs out h l = Agrees-run_of 4 align_to-4 vs out h l

pub Agrees-seq :
    (e : ℕ) (vs out : List ℕ)
    → Agrees (read_run e (length vs) out) vs (write_run vs e)
    → length vs < 2 ^ 32
    → Agrees (read_seq e (length vs) out) vs (write_seq vs e)
unfolding read_seq write_seq
Agrees-seq e vs out run h =
    let n = length vs % 2 ^ 32 in
    let exact : n ≡ length vs = omega arith in
    let counted : Agrees read_u32 (length vs) (write_u32 n) =
      subst (λ m. Agrees read_u32 m (write_u32 n)) exact (Agrees-u32 n (omega arith)) in
    let same : (length vs == length vs) ≡ true = ground arith in
    record {
      keeps = λ b. Kept-again b (write_u32 n b) _ (counted.keeps b) (run.keeps (write_u32 n b));
      reads = λ b rest content c l.
          let w = write_u32 n b in
          let after = run.keeps w in
          let here =
            counted.reads b (after.more ++ rest) content
              (c ∙ (ap (λ xs. xs ++ rest) after.same ∙ append_assoc w after.more rest)) l in
          let long = Kept-length b w (counted.keeps b) in
          rw here (rw same (run.reads w rest content c (omega arith)));
    }
