-- ===== src/Recording/Disk.antt =====
-- write_all, pwrite_all and the loop of read_frame: what they do however the system splits their work.
use perception_pipeline.Recording.{interrupted, wrote, put, File, Answer}
use perception_pipeline.Prelude.{
  List, [], ap, arith, drop, false, get_or, length, length-drop, length-take, ltb, refl, suc, sym,
  take, true, zero, ℕ, ◌+◌, ◌-◌, ◌<◌, ◌∙◌, ◌∷◌, ◌≡◌, ◌≤◌,
}

-- Answers that bring a call `n` octets further at least, before any failure.
pub data Steady : ℕ → List Answer → Type 0 where
  enough : {rest : List Answer} → Steady 0 rest
  some_more : {n k : ℕ} {rest : List Answer} → Steady n rest → Steady (suc n) (wrote (suc k) ∷ rest)
  once_more : {n : ℕ} {rest : List Answer} → Steady n rest → Steady n (interrupted ∷ rest)

pub Steady-less : {n : ℕ} {rest : List Answer} (m : ℕ) → m ≤ n → Steady n rest → Steady m rest
Steady-less zero h s = enough
Steady-less (suc m) h enough = absurd (omega (arith, h))
Steady-less (suc m) h (some_more s) = some_more (Steady-less m (omega (arith, h)) s)
Steady-less (suc m) h (once_more s) = once_more (Steady-less (suc m) h s)

get_or-take : (m j : ℕ) (xs : List ℕ) → j < m → get_or (take m xs) j 0 ≡ get_or xs j 0
get_or-take zero j xs h = absurd (omega (arith, h))
get_or-take (suc m) j [] h = refl
get_or-take (suc m) zero (x ∷ xs) h = refl
get_or-take (suc m) (suc j) (x ∷ xs) h = get_or-take m j xs (omega (arith, h))

get_or-drop : (m j : ℕ) (xs : List ℕ) → get_or (drop m xs) j 0 ≡ get_or xs (m + j) 0
get_or-drop zero j xs = ap (λ k. get_or xs k 0) (omega arith)
get_or-drop (suc m) j [] = refl
get_or-drop (suc m) j (x ∷ xs) =
    let on : suc (m + j) ≡ suc m + j = omega arith in
    get_or-drop m j xs ∙ ap (λ k. get_or (x ∷ xs) k 0) on

-- The file `g` is `f` with `xs` written from `offset` on, as far as its octets before them go.
pub record Puts (f : File) (offset : ℕ) (xs : List ℕ) (g : File) : Type 0 where
  pub inside : (j : ℕ) → j < length xs → g.octet (offset + j) ≡ get_or xs j 0
  pub below : (j : ℕ) → j < offset → g.octet j ≡ f.octet j
  pub grows : f.size ≤ g.size
  pub covers : 1 ≤ length xs → offset + length xs ≤ g.size

pub Puts-nothing : (f : File) (offset : ℕ) → Puts f offset [] f
Puts-nothing f offset = record {
  inside = λ j h. absurd (omega (arith, h));
  below = λ j h. refl;
  grows = omega arith;
  covers = λ h. absurd (omega (arith, h));
}

-- A first part of `m` octets, and then the rest.
pub Puts-part :
    (f g : File) (offset m : ℕ) (xs : List ℕ)
    → 1 ≤ m
    → m ≤ length xs
    → Puts (put f offset (take m xs)) (offset + m) (drop m xs) g
    → Puts f offset xs g
unfolding put
Puts-part f g offset m xs one small h =
    let taken : length (take m xs) ≡ m = omega (arith, length-take {A = ℕ} m xs, small) in
    let left : length (drop m xs) ≡ length xs - m = length-drop {A = ℕ} m xs in
    record {
      inside = λ j k.
          elim (ltb j m) as (λ t. ltb j m ≡ t → g.octet (offset + j) ≡ get_or xs j 0) [
            | true ↦ λ e.
                let near : offset + j - offset ≡ j = omega arith in
                let first = h.below (offset + j) (ground (arith, e)) in
                let here : (put f offset (take m xs)).octet (offset + j) ≡ get_or (take m xs) j 0 =
                  ground (arith, e, taken, near, ap (λ i. get_or (take m xs) i 0) near) in
                first ∙ (here ∙ get_or-take m j xs (ground (arith, e)))
            | false ↦ λ e.
                let there : offset + m + (j - m) ≡ offset + j = ground (arith, e) in
                let back : m + (j - m) ≡ j = ground (arith, e) in
                ap (λ i. g.octet i) (sym there)
                ∙ (h.inside (j - m) (ground (arith, e, left, k))
                    ∙ (get_or-drop m (j - m) xs ∙ ap (λ i. get_or xs i 0) back))
          ]
            refl;
      below = λ j k. h.below j (omega (arith, k)) ∙ ground (arith, k);
      grows = omega (arith, h.grows);
      covers = λ k.
          elim (ltb m (length xs)) as (λ t. ltb m (length xs) ≡ t → offset + length xs ≤ g.size) [
            | true ↦ λ e. let c = h.covers (ground (arith, e, left)) in ground (arith, c, left, e)
            | false ↦ λ e. let w = h.grows in ground (arith, w, taken, e, small)
          ]
            refl;
    }
