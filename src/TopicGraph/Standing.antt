-- ===== src/TopicGraph/Standing.antt =====
-- What the topics of app/src/topic_graph.cpp hold behind an answer, and what a replacement leaves of it.
use perception_pipeline.Prelude.{
  Bool, List, Option, [], ap, false, inl, inr, none, refl, some, some-injective, subst, sym, true,
  ℕ, ◌∙◌, ◌∷◌, ◌≡◌, ◌⊎◌,
}
use perception_pipeline.TopicGraph.{
  Topic, Source, Graph, Plane, host_tap, device_ring, download, source_of, with_source, is_named,
  find_topic, replace, Resolved, no_topic, no_such_plane, resolved, use_source, resolve_in,
}

-- The same refusal or the same object, from a graph that is left as it is.
abbrev pub answer_in : Graph → Resolved → Resolved
answer_in g no_topic = no_topic
answer_in g no_such_plane = no_such_plane
answer_in g (resolved address g') = resolved address g

-- What stands behind an answer, in the source and in the topic that was found.
abbrev pub Fits : Option ℕ → Option ℕ → Resolved → Type 0
Fits none b no_such_plane = true ≡ true
Fits (some f) (some a) (resolved address g) = a ≡ address
Fits _ _ _ = true ≡ false

abbrev pub Stands : Plane → Option Topic → Resolved → Type 0
Stands p none no_topic = true ≡ true
Stands p none _ = true ≡ false
Stands p (some t) r = Fits (source_of p t).factory (source_of p t).built r

Fits-answer :
    (build : ℕ → ℕ → ℕ) (g : Graph) (name : List ℕ) (p : Plane) (f b : Option ℕ) (r : Resolved)
    → Fits f b r
    → use_source build g name p f b ≡ answer_in g r
Fits-answer build g name p none b no_topic k = cc
Fits-answer build g name p none b no_such_plane k = refl
Fits-answer build g name p none b (resolved a g') k = cc
Fits-answer build g name p (some f) none no_topic k = cc
Fits-answer build g name p (some f) none no_such_plane k = cc
Fits-answer build g name p (some f) none (resolved a g') k = cc
Fits-answer build g name p (some f) (some a) no_topic k = cc
Fits-answer build g name p (some f) (some a) no_such_plane k = cc
Fits-answer build g name p (some f) (some a) (resolved a' g') k = ap (λ x. resolved x g) k

pub Stands-answer :
    (build : ℕ → ℕ → ℕ) (g : Graph) (name : List ℕ) (p : Plane) (o : Option Topic) (r : Resolved)
    → Stands p o r
    → resolve_in build g name p o ≡ answer_in g r
Stands-answer build g name p none no_topic k = refl
Stands-answer build g name p none no_such_plane k = cc
Stands-answer build g name p none (resolved a g') k = cc
Stands-answer build g name p (some t) r k = Fits-answer build g name p _ _ r k

-- A source that is not built yet stands behind no answer.
pub Fits-unbuilt : (f : ℕ) (r : Resolved) → Fits (some f) none r → true ≡ false
Fits-unbuilt f no_topic k = k
Fits-unbuilt f no_such_plane k = k
Fits-unbuilt f (resolved a g) k = k

is_named-with_source :
    (name : List ℕ) (p : Plane) (s : Source) (t : Topic)
    → is_named name (with_source p s t) ≡ is_named name t
is_named-with_source name host_tap s t = refl
is_named-with_source name device_ring s t = refl
is_named-with_source name download s t = refl

pub source_of-with_source :
    (p : Plane) (s : Source) (t : Topic) → source_of p (with_source p s t) ≡ s
source_of-with_source host_tap s t = refl
source_of-with_source device_ring s t = refl
source_of-with_source download s t = refl

-- A change of one plane's source is not seen on another plane.
same_or_apart :
    (p p' : Plane)
    → (p ≡ p') ⊎ ((s : Source) (t : Topic) → source_of p (with_source p' s t) ≡ source_of p t)
same_or_apart host_tap host_tap = inl refl
same_or_apart host_tap device_ring = inr (λ s t. refl)
same_or_apart host_tap download = inr (λ s t. refl)
same_or_apart device_ring host_tap = inr (λ s t. refl)
same_or_apart device_ring device_ring = inl refl
same_or_apart device_ring download = inr (λ s t. refl)
same_or_apart download host_tap = inr (λ s t. refl)
same_or_apart download device_ring = inr (λ s t. refl)
same_or_apart download download = inl refl

-- What a replacement does to the topic that a name finds: nothing, or it is the replaced one.
pub data Found (name name' : List ℕ) (p : Plane) (s : Source) (ts : List Topic) : Type 0 where
  untouched : find_topic name (replace name' p s ts) ≡ find_topic name ts → Found name name' p s ts
  touched :
      (t : Topic)
      → find_topic name ts ≡ some t
      → find_topic name' ts ≡ some t
      → find_topic name (replace name' p s ts) ≡ some (with_source p s t)
      → Found name name' p s ts

module _ (name name' : List ℕ) (p : Plane) (s : Source) where
  pub find_topic-replace : (ts : List Topic) → Found name name' p s ts
  unfolding find_topic replace
  find_topic-replace [] = untouched refl
  find_topic-replace (u ∷ us) =
      by_names (find_topic-replace us) (is_named name' u) refl (is_named name u) refl
    where
      by_names :
          Found name name' p s us
          → (b : Bool) → is_named name' u ≡ b
          → (c : Bool) → is_named name u ≡ c
          → Found name name' p s (u ∷ us)
      by_names rest true e true f =
          touched u (rw f refl) (rw e refl)
            (rw e (rw (is_named-with_source name p s u) (rw f refl)))
      by_names rest true e false f =
          untouched (rw e (rw (is_named-with_source name p s u) (rw f refl)))
      by_names rest false e true f = untouched (rw e (rw f refl))
      by_names (untouched h) false e false f = untouched (rw e (rw f h))
      by_names (touched t h h' h'') false e false f = touched t (rw f h) (rw e h') (rw e (rw f h''))

-- A source that is built now changes no answer that stands.
pub Stands-with_source :
    (p p' : Plane) (s : Source) (t : Topic) (f : ℕ) (r : Resolved)
    → (source_of p' t).factory ≡ some f
    → (source_of p' t).built ≡ none
    → Stands p (some t) r
    → Stands p (some (with_source p' s t)) r
Stands-with_source p p' s t f r ef eb k = elim (same_or_apart p p') [
  | inl same ↦
      let there = subst (λ q. Fits (source_of q t).factory (source_of q t).built r) same k in
      let there' = subst (λ x. Fits x (source_of p' t).built r) ef there in
      let bad = Fits-unbuilt f r (subst (λ x. Fits (some f) x r) eb there') in cc
  | inr apart ↦ subst (λ (x : Source). Fits x.factory x.built r) (sym (apart s t)) k
]

pub find_topic-replaced :
    (name : List ℕ) (p : Plane) (s : Source) (ts : List Topic) (t : Topic)
    → find_topic name ts ≡ some t
    → find_topic name (replace name p s ts) ≡ some (with_source p s t)
unfolding find_topic replace
find_topic-replaced name p s [] t e = cc
find_topic-replaced name p s (u ∷ us) t e =
    by_name (find_topic-replaced name p s us t) (is_named name u) refl
  where
    by_name :
        (find_topic name us ≡ some t
          → find_topic name (replace name p s us) ≡ some (with_source p s t))
        → (b : Bool) → is_named name u ≡ b
        → find_topic name (replace name p s (u ∷ us)) ≡ some (with_source p s t)
    by_name later true f =
        let first : find_topic name (u ∷ us) ≡ some u = rw f refl in
        let same : u ≡ t = some-injective (sym first ∙ e) in
        rw f (rw (is_named-with_source name p s u) (rw f (ap (λ v. some (with_source p s v)) same)))
    by_name later false f =
        let rest : find_topic name (u ∷ us) ≡ find_topic name us = rw f refl in
        rw f (rw f (later (sym rest ∙ e)))
