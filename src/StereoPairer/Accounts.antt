-- ===== src/StereoPairer/Accounts.antt =====
-- Every push and every pop keeps the accounts of Once.
use perception_pipeline.StereoPairer.Once.{
  pops, pushes_b, pushes_a, opened_world, after_pop, first, Accounted, Stocked, step, Event, World,
  run,
}
use perception_pipeline.Prelude.{
  Bool, List, [], ap, append-nil, append_assoc, arith, false, if◌then◌else◌, inc64, leb, length,
  length-append, ltb, refl, subst, sym, true, ℕ, ◌%◌, ◌++◌, ◌+◌, ◌-◌, ◌<◌, ◌^◌, ◌∙◌, ◌∷◌, ◌≡◌, ◌≤◌,
}
use perception_pipeline.FramePairing.{compare_heads}
use perception_pipeline.FramePairing.{match, older_a, older_b}
use perception_pipeline.StereoPairer.{
  Pushed, compare_heads, drop_oldest, pop_single_b, pop_pair, unpaired_one, hold_entry, pop_heads,
  push_stream, pop_single_a, Config, Entry, Stream, push, append_entry, nothing, try_pop,
}

-- One frame goes to the end of the queue.
append-Stocked :
    (config : Config) (s : Stream) (came gone : List Entry) (n : ℕ) (e : Entry)
    → Stocked config s came gone n
    → length s.queue < config.queue_frames
    → Stocked config (append_entry s e) (came ++ e ∷ []) gone n
append-Stocked config s came gone n e k h = record {
  in_order = sym (append_assoc gone s.queue (e ∷ [])) ∙ ap (λ xs. xs ++ e ∷ []) k.in_order;
  bounded = omega (arith, h, length-append {A = Entry} s.queue (e ∷ []));
  tally = k.tally;
}

-- The head of the queue leaves, and one of the counters goes up.
leave-Stocked :
    (config : Config) (s s' : Stream) (came gone : List Entry) (n n' : ℕ) (x : Entry)
    → Stocked config s came gone n
    → s.queue ≡ x ∷ s'.queue
    → (s'.overrun + s'.unpaired + n') % 2 ^ 64 ≡ (s.overrun + s.unpaired + n + 1) % 2 ^ 64
    → Stocked config s' came (gone ++ x ∷ []) n'
leave-Stocked config s s' came gone n n' x k q c = record {
  in_order = append_assoc gone (x ∷ []) s'.queue ∙ (ap (λ xs. gone ++ xs) (sym q) ∙ k.in_order);
  bounded = omega (arith, k.bounded, ap length q);
  tally = omega (arith, c, k.tally, length-append {A = Entry} gone (x ∷ []));
}

full-Stocked :
    (config : Config) (s : Stream) (q came gone : List Entry) (n : ℕ) (e : Entry)
    → 1 ≤ config.queue_frames
    → s.queue ≡ q
    → config.queue_frames ≤ length s.queue
    → Stocked config s came gone n
    → Stocked config (append_entry (drop_oldest s q) e) (came ++ e ∷ []) (gone ++ first q) n
full-Stocked config s [] came gone n e h q l k =
    let bad : 1 ≤ 0 = omega (arith, ap length q) in elim bad [ ]
full-Stocked config s (x ∷ xs) came gone n e h q l k =
    append-Stocked config (drop_oldest s (x ∷ xs)) came (gone ++ x ∷ []) n e
      (leave-Stocked config s (drop_oldest s (x ∷ xs)) came gone n n x k q (omega arith))
      (omega (arith, k.bounded, ap length q))

abbrev by_room : Stream → Entry → Bool → Pushed
by_room s e b =
    if b
    then record { kept_all = false; stream = append_entry (drop_oldest s s.queue) e }
    else record { kept_all = true; stream = append_entry s e }

push_stream-Stocked :
    (config : Config) (s : Stream) (came gone : List Entry) (n : ℕ) (e : Entry)
    → 1 ≤ config.queue_frames
    → Stocked config s came gone n
    → Stocked config
        (push_stream config s e).stream
        (came ++ e ∷ [])
        (gone ++ (if (push_stream config s e).kept_all then [] else first s.queue))
        n
unfolding push_stream
push_stream-Stocked config s came gone n e h k =
    elim (leb config.queue_frames (length s.queue))
        as (λ b.
          leb config.queue_frames (length s.queue) ≡ b
          → Stocked config (by_room s e b).stream (came ++ e ∷ [])
              (gone ++ (if (by_room s e b).kept_all then [] else first s.queue)) n) [
                | true ↦ λ full. full-Stocked config s s.queue came gone n e h refl (ground arith) k
                | false ↦ λ room.
                    subst (λ xs. Stocked config (append_entry s e) (came ++ e ∷ []) xs n)
                      (sym (append-nil gone))
                      (append-Stocked config s came gone n e k (ground arith))
              ]
      refl

-- A pop leaves a stream, counts a pair for it, or takes its head as a single.
pair-Stocked :
    (config : Config) (s : Stream) (came gone es : List Entry) (n : ℕ) (e : Entry)
    → Stocked config s came gone n
    → s.queue ≡ e ∷ es
    → Stocked config (hold_entry s e es) came (gone ++ e ∷ []) (inc64 n)
pair-Stocked config s came gone es n e k q =
    leave-Stocked config s (hold_entry s e es) came gone n (inc64 n) e k q (omega arith)

single-Stocked :
    (config : Config) (s : Stream) (came gone es : List Entry) (n : ℕ) (e : Entry)
    → Stocked config s came gone n
    → s.queue ≡ e ∷ es
    → Stocked config (unpaired_one (hold_entry s e es)) came (gone ++ e ∷ []) n
single-Stocked config s came gone es n e k q =
    leave-Stocked config s (unpaired_one (hold_entry s e es)) came gone n n e k q (omega arith)

none-Stocked :
    (config : Config) (s : Stream) (came gone : List Entry) (n : ℕ)
    → Stocked config s came gone n
    → Stocked config s came (gone ++ []) n
none-Stocked config s came gone n k =
    subst (λ xs. Stocked config s came xs n) (sym (append-nil gone)) k

module _ (config : Config) (w : World) (k : Accounted config w) where
  paired-Accounted :
      (a b : Entry) (as' bs : List Entry)
      → w.pairer.stream_a.queue ≡ a ∷ as'
      → w.pairer.stream_b.queue ≡ b ∷ bs
      → Accounted config (after_pop w (pop_pair w.pairer a as' b bs))
  unfolding pop_pair
  paired-Accounted a b as' bs qa qb = record {
    configured = k.configured;
    stream_a =
        pair-Stocked config w.pairer.stream_a w.came_a w.gone_a as' w.pairer.paired a k.stream_a qa;
    stream_b =
        pair-Stocked config w.pairer.stream_b w.came_b w.gone_b bs w.pairer.paired b k.stream_b qb;
  }

  single_a-Accounted :
      (a : Entry) (as' : List Entry)
      → w.pairer.stream_a.queue ≡ a ∷ as'
      → Accounted config (after_pop w (pop_single_a w.pairer a as'))
  unfolding pop_single_a
  single_a-Accounted a as' qa = record {
    configured = k.configured;
    stream_a =
        single-Stocked config w.pairer.stream_a w.came_a w.gone_a as' w.pairer.paired a k.stream_a
          qa;
    stream_b = none-Stocked config w.pairer.stream_b w.came_b w.gone_b w.pairer.paired k.stream_b;
  }

  single_b-Accounted :
      (b : Entry) (bs : List Entry)
      → w.pairer.stream_b.queue ≡ b ∷ bs
      → Accounted config (after_pop w (pop_single_b w.pairer b bs))
  unfolding pop_single_b
  single_b-Accounted b bs qb = record {
    configured = k.configured;
    stream_a = none-Stocked config w.pairer.stream_a w.came_a w.gone_a w.pairer.paired k.stream_a;
    stream_b =
        single-Stocked config w.pairer.stream_b w.came_b w.gone_b bs w.pairer.paired b k.stream_b
          qb;
  }

  same-Accounted : Accounted config (after_pop w (nothing w.pairer))
  same-Accounted = record {
    configured = k.configured;
    stream_a = k.stream_a;
    stream_b = k.stream_b;
  }

  heads-Accounted :
      (now : ℕ) (as' bs : List Entry)
      → w.pairer.stream_a.queue ≡ as'
      → w.pairer.stream_b.queue ≡ bs
      → Accounted config (after_pop w (pop_heads w.pairer now as' bs))
  unfolding pop_heads
  heads-Accounted now [] [] qa qb = same-Accounted
  heads-Accounted now (a ∷ as') [] qa qb =
      elim (ltb (now - a.arrived) w.pairer.config.hold)
        as (λ t.
          Accounted config
            (after_pop w (if t then nothing w.pairer else pop_single_a w.pairer a as'))) [
              | true ↦ same-Accounted
              | false ↦ single_a-Accounted a as' qa
            ]
  heads-Accounted now [] (b ∷ bs) qa qb =
      elim (ltb (now - b.arrived) w.pairer.config.hold)
        as (λ t.
          Accounted config
            (after_pop w (if t then nothing w.pairer else pop_single_b w.pairer b bs))) [
              | true ↦ same-Accounted
              | false ↦ single_b-Accounted b bs qb
            ]
  heads-Accounted now (a ∷ as') (b ∷ bs) qa qb =
      elim (compare_heads w.pairer.config.tolerance_ns a.timestamp_ns b.timestamp_ns)
        as (λ v. Accounted config (
          after_pop w (elim v [
            | match ↦ pop_pair w.pairer a as' b bs
            | older_a ↦ pop_single_a w.pairer a as'
            | older_b ↦ pop_single_b w.pairer b bs
          ]))) [
            | match ↦ paired-Accounted a b as' bs qa qb
            | older_a ↦ single_a-Accounted a as' qa
            | older_b ↦ single_b-Accounted b bs qb
          ]

step-Accounted :
    (config : Config) (w : World) (e : Event)
    → 1 ≤ config.queue_frames
    → Accounted config w
    → Accounted config (step w e)
unfolding step push try_pop
step-Accounted config w (pushes_a e) h k = record {
  configured = k.configured;
  stream_a =
      subst
        (λ c.
          Stocked config (push_stream c w.pairer.stream_a e).stream (w.came_a ++ e ∷ [])
            (w.gone_a
              ++ (if (push_stream c w.pairer.stream_a e).kept_all
                  then []
                  else first w.pairer.stream_a.queue))
            w.pairer.paired)
        (sym k.configured)
        (push_stream-Stocked config w.pairer.stream_a w.came_a w.gone_a w.pairer.paired e h
          k.stream_a);
  stream_b = k.stream_b;
}
step-Accounted config w (pushes_b e) h k = record {
  configured = k.configured;
  stream_a = k.stream_a;
  stream_b =
      subst
        (λ c.
          Stocked config (push_stream c w.pairer.stream_b e).stream (w.came_b ++ e ∷ [])
            (w.gone_b
              ++ (if (push_stream c w.pairer.stream_b e).kept_all
                  then []
                  else first w.pairer.stream_b.queue))
            w.pairer.paired)
        (sym k.configured)
        (push_stream-Stocked config w.pairer.stream_b w.came_b w.gone_b w.pairer.paired e h
          k.stream_b);
}
step-Accounted config w (pops now) h k =
    heads-Accounted config w k now w.pairer.stream_a.queue w.pairer.stream_b.queue refl refl

run-keeps :
    (config : Config) (w : World) (es : List Event)
    → 1 ≤ config.queue_frames
    → Accounted config w
    → Accounted config (run w es)
unfolding run
run-keeps config w [] h k = k
run-keeps config w (e ∷ es) h k = run-keeps config (step w e) es h (step-Accounted config w e h k)

-- With room for a frame, after any pushes and pops of a new pairer: the frames that left each stream's
-- queue, in a result or dropped from a full queue, and those still queued are the frames
-- pushed to it, each once and in order; the queue holds at most queue_frames; and the stream's
-- overruns, unpaired frames and the pairs add up, modulo 2 ^ 64, to the frames that left.
pub run-Accounted :
    (config : Config) (es : List Event)
    → 1 ≤ config.queue_frames
    → Accounted config (run (opened_world config) es)
run-Accounted config es h = run-keeps config (opened_world config) es h record {
  configured = refl;
  stream_a = record { in_order = refl; bounded = omega arith; tally = refl };
  stream_b = record { in_order = refl; bounded = omega arith; tally = refl };
}
