-- ===== src/TopicGraph/Tests.antt =====
-- A graph with one image stream, and an instance of the theorem.
use perception_pipeline.Prelude.{List, [], refl, ℕ, ◌*◌, ◌+◌, ◌∷◌, ◌≡◌}
use perception_pipeline.TopicGraph.{
  Graph, TopicInfo, host, declared, declare_image_stream, resolve, host_tap, download, Plane, plain,
  with_factory,
}
use perception_pipeline.TopicGraph.Resolving.{graph_after, resolve_all, resolve-resolve_all}
use perception_pipeline.TopicGraph.Standing.{answer_in}

abbrev left_raw : List ℕ
left_raw = 47 ∷ 108 ∷ []

abbrev left_info : TopicInfo
left_info = record {
  name = left_raw;
  residency = host;
  ros_type = 105 ∷ [];
  frame_id = [];
  producer = [];
}

abbrev one_stream : Graph
one_stream = record {
  topics = record (plain left_info) { stream_index = 0; tap = with_factory 5 } ∷ [];
  calls = 0;
}

abbrev build : ℕ → ℕ → ℕ
build f n = f * 100 + n

declares_it :
    declare_image_stream (record { topics = []; calls = 0 }) left_info 0 5 ≡ declared one_stream
unfolding declare_image_stream
declares_it = refl

-- What is asked for in between: the same tap, a plane that the topic has not, and a name that nobody declared.
abbrev others : List (List ℕ × Plane)
others = (left_raw, host_tap) ∷ (left_raw, download) ∷ (47 ∷ [], host_tap) ∷ []

resolve-resolve_all_example :
    let r = resolve build one_stream left_raw host_tap in
    let g' = resolve_all build (graph_after one_stream r) others in
    resolve build g' left_raw host_tap ≡ answer_in g' r
resolve-resolve_all_example = resolve-resolve_all build one_stream left_raw host_tap others
