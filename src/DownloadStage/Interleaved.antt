-- ===== src/DownloadStage/Interleaved.antt =====
-- Whole runs of pipeline/src/download_stage.cpp, in any order of its locked sections.
use perception_pipeline.Prelude.{
  Bool, Bool-cases, List, [], arith, count, count-range_from, false, if◌then◌else◌, inl, inr, not,
  refl, true, ℕ, ◌+◌, ◌<◌, ◌==◌, ◌^◌, ◌∷◌,
}
use perception_pipeline.HostFramePool.{Pool}
use perception_pipeline.HostFramePool.Exclusive.{IsExclusive}
use perception_pipeline.HostFramePool.Whole.{quiet}
use perception_pipeline.DownloadStage.{start}
use perception_pipeline.DownloadStage.Sections.{
  outside, Event, reserves, arms, copies, pushes, polls, releases, starts, halts, clears, Log,
  drop_flying, step, run,
}
use perception_pipeline.DownloadStage.Places.{
  Holds, reserves-Holds, arms-Holds, copies-Holds, pushes-Holds,
}
use perception_pipeline.DownloadStage.Leaving.{polls-Holds, drop_flying-Holds, release-Holds}
use perception_pipeline.DownloadStage.{ready}

module _ (n : ℕ) (l : Log) where
  -- Whether the stage runs, and a stop is under way, does not matter.
  flags-Holds :
      (running stopping : Bool)
      → Holds n l
      → Holds n (record l { stage = record l.stage { running = running }; stopping = stopping })
  flags-Holds running stopping k = record {
    slots = k.slots;
    small = k.small;
    events = k.events;
    timed = k.timed;
    order = k.order;
  }

  step-Holds : (e : Event) → Holds n l → Holds n (step l e)
  unfolding step start
  step-Holds (reserves t) k = reserves-Holds n l l.producer t k k
  step-Holds arms k = arms-Holds n l l.producer k k
  step-Holds (copies copied) k = copies-Holds n l l.producer copied k k
  step-Holds pushes k = pushes-Holds n l l.producer k k
  step-Holds (polls fired now) k = polls-Holds n l fired now k
  step-Holds (releases frame) k = elim (Bool-cases (count frame l.sunk == 0)) [
    | inl nobody ↦ rw nobody k
    | inr somebody ↦ rw somebody (release-Holds n l frame (ground arith) k)
  ]
  step-Holds starts k = flags-Holds true l.stopping k
  step-Holds halts k =
      elim l.stage.running
        as (λ b. Holds n (
          if not b
          then l
          else record l { stage = record l.stage { running = false }; stopping = true })) [
            | true ↦ flags-Holds false true k
            | false ↦ k
          ]
  step-Holds clears k = elim l.stopping as (λ b. Holds n (if not b then l else drop_flying l)) [
    | true ↦ drop_flying-Holds n l k
    | false ↦ k
  ]

run-keeps : (n : ℕ) (l : Log) (es : List Event) → Holds n l → Holds n (run l es)
unfolding run
run-keeps n l [] k = k
run-keeps n l (e ∷ es) k = run-keeps n (step l e) es (step-Holds n l e k)

-- A new stage.
abbrev pub opened : ℕ → Pool → Log
opened n p = record {
  stage = ready n p;
  producer = outside;
  stopping = false;
  sunk = [];
  taken = [];
  left = [];
}

-- From a new stage of n slots over a new pool, n + 1 < 2 ^ 32, in any order of the locked sections of one producer's enqueues, with copies that start or fail, of the
-- stage's thread, of starts and stops, and of the sinks' releases: the frames that were put in flight
-- leave in that order, each with the time it was enqueued with, to the sinks or dropped by a stop, and what
-- has not left is in flight; every slot is in one place only, free, with the producer, in
-- flight or with the sinks; and no event is free, in flight or with the producer twice.
pub run-Holds :
    (n : ℕ) (p : Pool) (es : List Event)
    → n + 1 < 2 ^ 32
    → IsExclusive n (quiet p [])
    → Holds n (run (opened n p) es)
run-Holds n p es h v = run-keeps n (opened n p) es record {
  slots = v;
  small = h;
  events = λ i. ground (arith, count-range_from 0 n i);
  timed = refl;
  order = refl;
}
