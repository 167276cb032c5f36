-- ===== src/TopicGraph.antt =====
-- app/include/topic_graph.hpp and app/src/topic_graph.cpp: the names of a run's buffers. A string is
-- the list of its octets and the sorted map a list of entries in order. A factory is external code: it is known
-- by a number, `build` says what its next call gives, and the graph counts the calls.
pub mod Resolving
pub mod Standing
mod Tests
use perception_pipeline.Prelude.{
  same_text, Bool, List, Option, [], false, if◌then◌else◌, ltb, map, no_slot, none, not, some, true,
  ℕ, ◌&&◌, ◌+◌, ◌==◌, ◌||◌, ◌∷◌,
}

pub data Residency : Type 0 where
  host device : Residency

pub record TopicInfo : Type 0 where
  pub name : List ℕ
  pub residency : Residency
  pub ros_type : List ℕ
  pub frame_id : List ℕ
  pub producer : List ℕ

-- A buffer of one kind behind a topic: its factory, and what that built.
pub record Source : Type 0 where
  pub factory : Option ℕ
  pub built : Option ℕ

pub record Topic : Type 0 where
  pub info : TopicInfo
  pub stream_index : ℕ
  pub tap : Source
  pub ring : Source
  pub plane : Source

pub record Graph : Type 0 where
  pub topics : List Topic
  pub calls : ℕ

abbrev pub no_source : Source
no_source = record { factory = none; built = none }

abbrev pub plain : TopicInfo → Topic
plain info = record {
  info = info;
  stream_index = no_slot;
  tap = no_source;
  ring = no_source;
  plane = no_source;
}

-- std::string's <; same_text is its ==.
abbrev pub text_before : List ℕ → List ℕ → Bool
text_before xs [] = false
text_before [] (y ∷ ys) = true
text_before (x ∷ xs) (y ∷ ys) = ltb x y || (x == y && text_before xs ys)

abbrev pub is_named : List ℕ → Topic → Bool
is_named name t = same_text t.info.name name

unfoldable pub find_topic : List ℕ → List Topic → Option Topic
find_topic name [] = none
find_topic name (t ∷ ts) = let rest = find_topic name ts in if is_named name t then some t else rest

abbrev pub is_none : Option Topic → Bool
is_none none = true
is_none (some t) = false

-- topics_.emplace, where the name is not there yet.
unfoldable pub insert : Topic → List Topic → List Topic
insert t [] = t ∷ []
insert t (u ∷ us) =
    let rest = insert t us in if text_before t.info.name u.info.name then t ∷ u ∷ us else u ∷ rest

pub data Refusal : Type 0 where
  not_a_name declared_twice device_with_type : Refusal

pub data Declared : Type 0 where
  refused : Refusal → Declared
  declared : Graph → Declared

-- entry.info.name.empty() || front() != '/'
abbrev pub is_bad_name : List ℕ → Bool
is_bad_name [] = true
is_bad_name (c ∷ cs) = not (c == 47)

abbrev pub is_device : Residency → Bool
is_device host = false
is_device device = true

abbrev pub is_empty : List ℕ → Bool
is_empty [] = true
is_empty (c ∷ cs) = false

unfoldable pub declare : Graph → Topic → Declared
unfolding find_topic insert
declare g t =
    if is_bad_name t.info.name
    then refused not_a_name
    else if not (is_none (find_topic t.info.name g.topics))
    then refused declared_twice
    else if is_device t.info.residency && not (is_empty t.info.ros_type)
    then refused device_with_type
    else declared (record g { topics = insert t g.topics })

abbrev pub with_factory : ℕ → Source
with_factory f = record { factory = some f; built = none }

unfoldable pub declare_image_stream : Graph → TopicInfo → ℕ → ℕ → Declared
unfolding declare
declare_image_stream g info stream_index tap =
    declare g (record (plain info) { stream_index = stream_index; tap = with_factory tap })

unfoldable pub declare_device_ring : Graph → TopicInfo → ℕ → ℕ → Declared
unfolding declare
declare_device_ring g info stream_index ring =
    declare g (record (plain (record info { residency = device })) {
      stream_index = stream_index;
      ring = with_factory ring;
    })

unfoldable pub declare_host_plane : Graph → TopicInfo → ℕ → Declared
unfolding declare
declare_host_plane g info stage = declare g (record (plain info) { plane = with_factory stage })

unfoldable pub has : Graph → List ℕ → Bool
unfolding find_topic
has g name = not (is_none (find_topic name g.topics))

unfoldable pub names : Graph → List (List ℕ)
names g = map (λ t. t.info.name) g.topics

pub data Plane : Type 0 where
  host_tap device_ring download : Plane

abbrev pub source_of : Plane → Topic → Source
source_of host_tap t = t.tap
source_of device_ring t = t.ring
source_of download t = t.plane

abbrev pub with_source : Plane → Source → Topic → Topic
with_source host_tap s t = record t { tap = s }
with_source device_ring s t = record t { ring = s }
with_source download s t = record t { plane = s }

unfoldable pub replace : List ℕ → Plane → Source → List Topic → List Topic
replace name p s [] = []
replace name p s (t ∷ ts) =
    let rest = replace name p s ts in if is_named name t then with_source p s t ∷ ts else t ∷ rest

pub data Resolved : Type 0 where
  no_topic no_such_plane : Resolved
  resolved : ℕ → Graph → Resolved

-- What is built is used again; else the factory is called.
abbrev pub use_source : (ℕ → ℕ → ℕ) → Graph → List ℕ → Plane → Option ℕ → Option ℕ → Resolved
use_source build g name p none b = no_such_plane
use_source build g name p (some f) (some address) = resolved address g
use_source build g name p (some f) none = resolved (build f g.calls) record {
  topics = replace name p (record { factory = some f; built = some (build f g.calls) }) g.topics;
  calls = g.calls + 1;
}

abbrev pub resolve_in : (ℕ → ℕ → ℕ) → Graph → List ℕ → Plane → Option Topic → Resolved
resolve_in build g name p none = no_topic
resolve_in build g name p (some t) =
    use_source build g name p (source_of p t).factory (source_of p t).built

-- host_tap, device_ring and download, by the plane.
unfoldable pub resolve : (ℕ → ℕ → ℕ) → Graph → List ℕ → Plane → Resolved
unfolding find_topic replace
resolve build g name p = resolve_in build g name p (find_topic name g.topics)
