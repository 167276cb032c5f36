-- ===== src/Cdr/Kept.antt =====
-- The methods of recording/include/cdr_writer.hpp only append.
use perception_pipeline.Prelude.{
  List, [], ap, append-nil, append_assoc, arith, false, if◌then◌else◌, length, length-append, refl,
  suc, sym, true, zero, ℕ, ◌%◌, ◌++◌, ◌-◌, ◌==◌, ◌∙◌, ◌∷◌, ◌≡◌, ◌≤◌,
}
use perception_pipeline.Cdr.Writer.{align_to, pad_to, raw}

-- What a writer has written stays.
pub record Kept (b c : List ℕ) : Type 0 where
  pub more : List ℕ
  pub same : c ≡ b ++ more

pub kept : (b more : List ℕ) → Kept b (b ++ more)
kept b more = record { more = more; same = refl }

pub Kept-again : (a b c : List ℕ) → Kept a b → Kept b c → Kept a c
Kept-again a b c k l = record {
  more = k.more ++ l.more;
  same = l.same ∙ (ap (λ xs. xs ++ l.more) k.same ∙ append_assoc a k.more l.more);
}

pub pad_to-Kept : (fuel n : ℕ) (b : List ℕ) → Kept b (pad_to fuel n b)
unfolding pad_to
pad_to-Kept zero n b = record { more = []; same = sym (append-nil b) }
pad_to-Kept (suc fuel) n b =
    elim ((length b - 4) % n == 0) as (λ t. Kept b (if t then b else pad_to fuel n (b ++ 0 ∷ []))) [
      | true ↦ record { more = []; same = sym (append-nil b) }
      | false ↦
          Kept-again b (b ++ 0 ∷ []) (pad_to fuel n (b ++ 0 ∷ [])) (kept b (0 ∷ []))
            (pad_to-Kept fuel n (b ++ 0 ∷ []))
    ]

pub raw-Kept : (v n a : ℕ) (b : List ℕ) → Kept b (raw v n a b)
unfolding raw align_to
raw-Kept v n a b = Kept-again b (pad_to a a b) _ (pad_to-Kept a a b) (kept (pad_to a a b) _)

pub Kept-length : (b c : List ℕ) → Kept b c → length b ≤ length c
Kept-length b c k = omega (arith, ap length k.same, length-append {A = ℕ} b k.more)
