-- ===== src/TopicGraph/Resolving.antt =====
-- A plane of app/src/topic_graph.cpp is built once: asking again, however much later, gives the same object and
-- calls no factory.
use perception_pipeline.Prelude.{
  List, Option, [], ap, none, refl, some, some-injective, subst, sym, ℕ, ◌∙◌, ◌∷◌, ◌≡◌,
}
use perception_pipeline.TopicGraph.{
  Topic, Source, Graph, Plane, source_of, find_topic, replace, Resolved, no_topic, no_such_plane,
  resolved, use_source, resolve_in, resolve,
}
use perception_pipeline.TopicGraph.Standing.{
  answer_in, Fits, Stands, Stands-answer, source_of-with_source, Found, untouched, touched,
  find_topic-replace, Stands-with_source, find_topic-replaced,
}

-- The graph that an answer leaves.
abbrev pub graph_after : Graph → Resolved → Graph
graph_after g no_topic = g
graph_after g no_such_plane = g
graph_after g (resolved address g') = g'

-- Requests for a name's plane, one after the other.
unfoldable pub resolve_all : (ℕ → ℕ → ℕ) → Graph → List (List ℕ × Plane) → Graph
resolve_all build g [] = g
resolve_all build g ((name, p) ∷ qs) = resolve_all build (graph_after g (resolve build g name p)) qs

module _ (build : ℕ → ℕ → ℕ) (name : List ℕ) (p : Plane) (r : Resolved) where
  -- Another request leaves what stands.
  Stands-later :
      (g : Graph) (name' : List ℕ) (p' : Plane)
      → Stands p (find_topic name g.topics) r
      → Stands p (find_topic name (graph_after g (resolve build g name' p')).topics) r
  unfolding resolve
  Stands-later g name' p' k = by_topic (find_topic name' g.topics) refl
    where
      by_found :
          (u : Topic) (f : ℕ) (s : Source)
          → find_topic name' g.topics ≡ some u
          → (source_of p' u).factory ≡ some f
          → (source_of p' u).built ≡ none
          → Found name name' p' s g.topics
          → Stands p (find_topic name (replace name' p' s g.topics)) r
      by_found u f s e ef eb (untouched h) = subst (λ o. Stands p o r) (sym h) k
      by_found u f s e ef eb (touched t h h' h'') =
          let same : t ≡ u = some-injective (sym h' ∙ e) in
          subst (λ o. Stands p o r) (sym h'')
            (Stands-with_source p p' s t f r (ap (λ v. (source_of p' v).factory) same ∙ ef)
              (ap (λ v. (source_of p' v).built) same ∙ eb) (subst (λ o. Stands p o r) h k))

      by_source :
          (u : Topic)
          → find_topic name' g.topics ≡ some u
          → (f b : Option ℕ) → (source_of p' u).factory ≡ f
          → (source_of p' u).built ≡ b
          → Stands p (find_topic name (graph_after g (use_source build g name' p' f b)).topics) r
      by_source u e none b ef eb = k
      by_source u e (some f) (some a) ef eb = k
      by_source u e (some f) none ef eb =
          by_found u f _ e ef eb (find_topic-replace name name' p' _ g.topics)

      by_topic :
          (o : Option Topic)
          → find_topic name' g.topics ≡ o
          → Stands p (find_topic name (graph_after g (resolve_in build g name' p' o)).topics) r
      by_topic none e = k
      by_topic (some u) e = by_source u e _ _ refl refl

  Stands-resolve_all :
      (g : Graph) (qs : List (List ℕ × Plane))
      → Stands p (find_topic name g.topics) r
      → Stands p (find_topic name (resolve_all build g qs).topics) r
  unfolding resolve_all
  Stands-resolve_all g [] k = k
  Stands-resolve_all g ((name', p') ∷ qs) k =
      Stands-resolve_all (graph_after g (resolve build g name' p')) qs (Stands-later g name' p' k)

-- An answer stands in the graph that it leaves.
Stands-first :
    (build : ℕ → ℕ → ℕ) (g : Graph) (name : List ℕ) (p : Plane)
    → let r = resolve build g name p in Stands p (find_topic name (graph_after g r).topics) r
unfolding resolve
Stands-first build g name p = by_topic (find_topic name g.topics) refl
  where
    by_source :
        (t : Topic)
        → find_topic name g.topics ≡ some t
        → (f b : Option ℕ) → (source_of p t).factory ≡ f
        → (source_of p t).built ≡ b
        → let r = use_source build g name p f b in
          Stands p (find_topic name (graph_after g r).topics) r
    by_source t e none b ef eb =
        let fits : Fits (source_of p t).factory (source_of p t).built no_such_plane =
          subst (λ x. Fits x (source_of p t).built no_such_plane) (sym ef) refl in
        subst (λ o. Stands p o no_such_plane) (sym e) fits
    by_source t e (some f) (some a) ef eb =
        let old : Resolved = resolved a g in
        let half = subst (λ x. Fits (some f) x old) (sym eb) refl in
        subst (λ o. Stands p o old) (sym e)
          (subst (λ x. Fits x (source_of p t).built old) (sym ef) half)
    by_source t e (some f) none ef eb =
        let new : Source = record { factory = some f; built = some (build f g.calls) } in
        let r = use_source build g name p (some f) none in
        subst (λ o. Stands p o r) (sym (find_topic-replaced name p new g.topics t e))
          (subst (λ (x : Source). Fits x.factory x.built r) (sym (source_of-with_source p new t))
            refl)

    by_topic :
        (o : Option Topic)
        → find_topic name g.topics ≡ o
        → let r = resolve_in build g name p o in
          Stands p (find_topic name (graph_after g r).topics) r
    by_topic none e = subst (λ o. Stands p o no_topic) (sym e) refl
    by_topic (some t) e = by_source t e _ _ refl refl

-- A graph calls a topic's factory at most once for a plane: after host_tap, device_ring or download has
-- answered for a name, and any further requests for any names and planes, asking for the same again gives
-- the same object and leaves the graph and its count of calls as they are; a refusal stays the same refusal.
pub resolve-resolve_all :
    (build : ℕ → ℕ → ℕ) (g : Graph) (name : List ℕ) (p : Plane) (qs : List (List ℕ × Plane))
    → let r = resolve build g name p in
      let g' = resolve_all build (graph_after g r) qs in resolve build g' name p ≡ answer_in g' r
unfolding resolve
resolve-resolve_all build g name p qs =
    let r = resolve build g name p in
    let g' = resolve_all build (graph_after g r) qs in
    Stands-answer build g' name p (find_topic name g'.topics) r
      (Stands-resolve_all build name p r (graph_after g r) qs (Stands-first build g name p))
