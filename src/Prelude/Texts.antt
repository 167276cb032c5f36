-- ===== src/Prelude/Texts.antt =====
-- Texts as their octets.
use Prim.Native.Char.{code}
use Prim.Native.String.{String}
use Prim.Native.Nat.{ℕ}
use mathlib.Core.Bool.{Bool, true, false, ◌&&◌}
use mathlib.Core.Option.{Option, none, some}
use mathlib.Core.List.{List, [], ◌∷◌}
use perception_pipeline.Prelude.Tests.{◌==◌, if◌then◌else◌}

abbrev pub codes : String → List ℕ
codes String.[] = []
codes (String.◌∷◌ c s) = code c ∷ codes s

abbrev pub same_text : List ℕ → List ℕ → Bool
same_text [] [] = true
same_text [] (y ∷ ys) = false
same_text (x ∷ xs) [] = false
same_text (x ∷ xs) (y ∷ ys) = (x == y) && same_text xs ys

-- The find of an unordered_map with texts as keys.
module _ {ℓ} {V : Type ℓ} where
  abbrev pub find_text : List ℕ → List (List ℕ × V) → Option V
  find_text k [] = none
  find_text k ((j, v) ∷ m) = if same_text j k then some v else find_text k m
