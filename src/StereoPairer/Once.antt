-- ===== src/StereoPairer/Once.antt =====
-- Every frame that is pushed leaves its queue once and in order, in a result or as an overrun.
use perception_pipeline.Prelude.{
  List, Option, [], if◌then◌else◌, length, none, some, ℕ, ◌%◌, ◌++◌, ◌+◌, ◌^◌, ◌∷◌, ◌≡◌, ◌≤◌,
}
use perception_pipeline.StereoPairer.{
  Config, Entry, Stream, Pairer, Pair, PushAnswer, pushed, bad_stream_id, push, Popped, nothing,
  popped, try_pop, empty_pairer,
}

pub data Event : Type 0 where
  pushes_a : Entry → Event
  pushes_b : Entry → Event
  pops : ℕ → Event

-- What was pushed to each stream, what has left each queue, and the results, oldest first.
pub record World : Type 0 where
  pub pairer : Pairer
  pub came_a : List Entry
  pub came_b : List Entry
  pub gone_a : List Entry
  pub gone_b : List Entry
  pub results : List Pair

abbrev pub first : List Entry → List Entry
first [] = []
first (e ∷ es) = e ∷ []

abbrev pub side : Option Entry → List Entry
side none = []
side (some e) = e ∷ []

abbrev pub after_push_a : World → Entry → PushAnswer → World
after_push_a w e bad_stream_id = w
after_push_a w e (pushed kept_all p) = record w {
  pairer = p;
  came_a = w.came_a ++ e ∷ [];
  gone_a = w.gone_a ++ (if kept_all then [] else first w.pairer.stream_a.queue);
}

abbrev pub after_push_b : World → Entry → PushAnswer → World
after_push_b w e bad_stream_id = w
after_push_b w e (pushed kept_all p) = record w {
  pairer = p;
  came_b = w.came_b ++ e ∷ [];
  gone_b = w.gone_b ++ (if kept_all then [] else first w.pairer.stream_b.queue);
}

abbrev pub after_pop : World → Popped → World
after_pop w (nothing p) = record w { pairer = p }
after_pop w (popped pair p) = record w {
  pairer = p;
  gone_a = w.gone_a ++ side pair.side_a;
  gone_b = w.gone_b ++ side pair.side_b;
  results = w.results ++ pair ∷ [];
}

unfoldable pub step : World → Event → World
unfolding push try_pop
step w (pushes_a e) = after_push_a w e (push w.pairer 0 e)
step w (pushes_b e) = after_push_b w e (push w.pairer 1 e)
step w (pops now) = after_pop w (try_pop w.pairer now)

unfoldable pub run : World → List Event → World
unfolding step
run w [] = w
run w (e ∷ es) = run (step w e) es

abbrev pub opened_world : Config → World
opened_world config = record {
  pairer = empty_pairer config;
  came_a = [];
  came_b = [];
  gone_a = [];
  gone_b = [];
  results = [];
}

-- A stream whose frames are accounted for, with `n` pairs made.
pub record Stocked (config : Config) (s : Stream) (came gone : List Entry) (n : ℕ) : Type 0 where
  pub in_order : gone ++ s.queue ≡ came
  pub bounded : length s.queue ≤ config.queue_frames
  pub tally : (s.overrun + s.unpaired + n) % 2 ^ 64 ≡ length gone % 2 ^ 64

pub record Accounted (config : Config) (w : World) : Type 0 where
  pub configured : w.pairer.config ≡ config
  pub stream_a : Stocked config w.pairer.stream_a w.came_a w.gone_a w.pairer.paired
  pub stream_b : Stocked config w.pairer.stream_b w.came_b w.gone_b w.pairer.paired
