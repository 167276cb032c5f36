-- ===== src/DownloadStage/Tests.antt =====
-- Runs of pipeline/src/download_stage.cpp, and its theorems at concrete inputs.
use perception_pipeline.Prelude.{List, [], arith, false, length, refl, true, ◌∷◌, ◌≡◌}
use perception_pipeline.HostFramePool.{
  filled_up, acquire, pop_free, stamp, release, push_free, count_down,
}
use perception_pipeline.HostFramePool.Exclusive.{create-IsExclusive}
use perception_pipeline.HostFramePool
use perception_pipeline.DownloadStage.{
  Stage, refused, ready, start, stop, enqueue, poll, release_all,
}
use perception_pipeline.DownloadStage.Events.{IsSound, ready-IsSound, Enqueues, enqueue-Enqueues}
use perception_pipeline.DownloadStage.Runs.{enqueues, serve, enqueue-start-stop-refuses}
use perception_pipeline.DownloadStage.Runs
use perception_pipeline.DownloadStage.Sections.{
  Event, reserves, arms, copies, pushes, polls, releases, starts, halts, clears, run, sunk_frame,
  dropped_frame,
}
use perception_pipeline.DownloadStage.Places.{Holds}
use perception_pipeline.DownloadStage.Interleaved.{opened, run-Holds}

abbrev idle : Stage
idle = ready 2 (filled_up 2 16)

idle-IsSound : IsSound 2 idle []
unfolding HostFramePool.create
idle-IsSound =
    ready-IsSound 2 (filled_up 2 16) (omega arith) (create-IsExclusive 2 16 (omega arith) refl)

abbrev running_idle : Stage
running_idle = record idle { running = true }

running_idle-IsSound : IsSound 2 running_idle []
running_idle-IsSound = record {
  pool = idle-IsSound.pool;
  small = idle-IsSound.small;
  events = idle-IsSound.events;
  paired = idle-IsSound.paired;
}

enqueue-Enqueues_example : Enqueues 2 running_idle [] (enqueue running_idle 10 true)
enqueue-Enqueues_example = enqueue-Enqueues 2 running_idle [] 10 running_idle-IsSound

-- Three frames for two slots, the second while the first is in flight: the third finds the pool dry, the copy of
-- the fourth fails, and a stop drops the second.
abbrev busy : List Event
busy =
    starts
    ∷ reserves 10
    ∷ arms
    ∷ copies true
    ∷ pushes
    ∷ reserves 20
    ∷ polls false 5
    ∷ arms
    ∷ polls true 6
    ∷ copies true
    ∷ pushes
    ∷ reserves 30
    ∷ releases 0
    ∷ reserves 40
    ∷ arms
    ∷ copies false
    ∷ halts
    ∷ clears
    ∷ []

busy_log :
    ((run (opened 2 (filled_up 2 16)) busy).taken ≡ 10 ∷ 20 ∷ [])
    × ((run (opened 2 (filled_up 2 16)) busy).left ≡ sunk_frame 10 ∷ dropped_frame 20 ∷ [])
    × ((run (opened 2 (filled_up 2 16)) busy).stage.pool.drops ≡ 1)
unfolding run poll acquire pop_free stamp release start release_all
busy_log = (refl, refl, refl)

run-Holds_example : Holds 2 (run (opened 2 (filled_up 2 16)) busy)
run-Holds_example = run-Holds 2 (filled_up 2 16) busy (omega arith) idle-IsSound.pool

-- Both slots in flight.
abbrev loaded : Stage
unfolding enqueue acquire pop_free stamp
loaded = (enqueue (enqueue running_idle 10 true).0 20 true).0

loaded-IsSound : IsSound 2 loaded []
unfolding enqueue acquire pop_free stamp
loaded-IsSound =
    (enqueue-Enqueues 2 _ [] 20 (enqueue-Enqueues 2 running_idle [] 10 running_idle-IsSound).0).0

-- Calls after the restart.
abbrev restart : Stage
restart = serve (start (stop loaded)) (enqueues 25 true ∷ Runs.polls true 9 ∷ [])

enqueue-start-stop-refuses_example :
    (length restart.pool.free ≡ 2)
    × ((enqueue restart 30 true).1 ≡ refused)
    × ((enqueue restart 30 true).0.pool.drops ≡ restart.pool.drops)
unfolding enqueue acquire pop_free stamp
enqueue-start-stop-refuses_example =
    enqueue-start-stop-refuses 2 loaded (enqueues 25 true ∷ Runs.polls true 9 ∷ []) 30 true
      loaded-IsSound refl refl (omega arith)
