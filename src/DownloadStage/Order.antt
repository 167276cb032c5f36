-- ===== src/DownloadStage/Order.antt =====
-- pipeline/src/download_stage.cpp hands frames on in the order in which their copies were enqueued,
-- each with the time that it was enqueued with.
use perception_pipeline.Prelude.{
  Bool, List, Option, [], ap, arith, count, count-append, false, get_or, if◌then◌else◌, inl, inr,
  none, not, refl, set, some, suc, sym, true, zero, ℕ, ◌++◌, ◌∙◌, ◌∷◌, ◌≡◌, ◌≢◌, ◌≤◌, ◌⊎◌,
}
use mathlib.Core.Path.{ap₂}
use perception_pipeline.HostFramePool.{Pool, Stamp, unused, release}
use perception_pipeline.HostFramePool.Whole.{Acquires, Takes, acquire-Acquires}
use perception_pipeline.DownloadStage.{
  InFlight, Stage, Answer, accepted, enqueue, poll, with_frame, with_event, poll_front,
}
use perception_pipeline.DownloadStage.Events.{IsSound, slots_of}

abbrev pub stamp_at : List Stamp → ℕ → ℕ
stamp_at frames i = (get_or frames i unused).timestamp_ns

-- The times of the copies in flight, oldest first.
abbrev pub stamps_of : List Stamp → List InFlight → List ℕ
stamps_of frames [] = []
stamps_of frames (f ∷ fs) = stamp_at frames f.frame ∷ stamps_of frames fs

abbrev pub queued : Stage → List ℕ
queued s = stamps_of s.pool.frames s.inflight

pub stamps_of-append :
    (frames : List Stamp) (fs gs : List InFlight)
    → stamps_of frames (fs ++ gs) ≡ stamps_of frames fs ++ stamps_of frames gs
stamps_of-append frames [] gs = refl
stamps_of-append frames (f ∷ fs) gs =
    ap (◌∷◌ (stamp_at frames f.frame)) (stamps_of-append frames fs gs)

-- Frames that are not touched keep their times.
stamps_of-same :
    (before after : List Stamp) (fs : List InFlight)
    → ((i : ℕ) → 1 ≤ count i (slots_of fs) → stamp_at after i ≡ stamp_at before i)
    → stamps_of after fs ≡ stamps_of before fs
stamps_of-same before after [] same = refl
stamps_of-same before after (f ∷ fs) same =
    ap₂ ◌∷◌ (same f.frame (ground arith))
      (stamps_of-same before after fs (λ i h. same i (ground arith)))

pub stamp_at-hosted :
    (frames : List Stamp) (k i now : ℕ)
    → stamp_at (set frames k (record (get_or frames k unused) { host_ready_ns = now })) i
      ≡ stamp_at frames i
stamp_at-hosted [] k i now = refl
stamp_at-hosted (x ∷ xs) zero zero now = refl
stamp_at-hosted (x ∷ xs) zero (suc i) now = refl
stamp_at-hosted (x ∷ xs) (suc k) zero now = refl
stamp_at-hosted (x ∷ xs) (suc k) (suc i) now = stamp_at-hosted xs k i now

pub stamps_of-Takes :
    (n : ℕ) (s : Stage) (sunk : List ℕ) (timestamp_ns frame : ℕ) (p' : Pool)
    → Takes n s.pool (slots_of s.inflight ++ sunk) timestamp_ns frame p'
    → stamps_of p'.frames s.inflight ≡ queued s
stamps_of-Takes n s sunk timestamp_ns frame p' t =
    stamps_of-same s.pool.frames p'.frames s.inflight λ i here.
      ap (λ (f : Stamp). f.timestamp_ns)
        (t.others i
          (λ e. absurd (ground (arith, t.absent, count-append frame (slots_of s.inflight) sunk))))

-- The queue of times after a call of `enqueue`: an accepted frame is the last of it.
abbrev pub Queues : Stage → ℕ → Stage × Answer → Type 0
Queues s timestamp_ns (s', answer) =
    ((answer ≡ accepted) × (queued s' ≡ queued s ++ timestamp_ns ∷ []))
    ⊎ ((answer ≢ accepted) × (queued s' ≡ queued s))

with_event-Queues :
    (n : ℕ) (s : Stage) (sunk : List ℕ) (timestamp_ns frame : ℕ) (p' : Pool) (free : List ℕ)
    (copied : Bool)
    → Takes n s.pool (slots_of s.inflight ++ sunk) timestamp_ns frame p'
    → Queues s timestamp_ns (with_event (record s { pool = p' }) frame free copied)
unfolding release
with_event-Queues n s sunk timestamp_ns frame p' [] copied t =
    inr (λ e. cc, stamps_of-Takes n s sunk timestamp_ns frame p' t)
with_event-Queues n s sunk timestamp_ns frame p' (event ∷ rest) false t =
    inr (λ e. cc, stamps_of-Takes n s sunk timestamp_ns frame p' t)
with_event-Queues n s sunk timestamp_ns frame p' (event ∷ rest) true t = inl (
  refl,
  stamps_of-append p'.frames s.inflight (record { frame = frame; event = event } ∷ [])
      ∙ ap₂ ◌++◌ (stamps_of-Takes n s sunk timestamp_ns frame p' t) (ap (λ k. k ∷ []) t.stamped),
)

with_frame-Queues :
    (n : ℕ) (s : Stage) (sunk : List ℕ) (timestamp_ns : ℕ) (result : Pool × Option ℕ)
    (copied : Bool)
    → Acquires n s.pool (slots_of s.inflight ++ sunk) timestamp_ns result
    → Queues s timestamp_ns (with_frame s result copied)
with_frame-Queues n s sunk timestamp_ns (p', none) copied dry =
    inr (λ e. cc, ap (λ (q : Pool). stamps_of q.frames s.inflight) dry.counted)
with_frame-Queues n s sunk timestamp_ns (p', some frame) copied t =
    with_event-Queues n s sunk timestamp_ns frame p' s.free_events copied t

-- `enqueue` puts an accepted frame behind all others in flight, with the time that it was given,
-- and leaves the queue alone if it refuses or throws.
pub enqueue-Queues :
    (n : ℕ) (s : Stage) (sunk : List ℕ) (timestamp_ns : ℕ) (copied : Bool)
    → IsSound n s sunk
    → Queues s timestamp_ns (enqueue s timestamp_ns copied)
unfolding enqueue
enqueue-Queues n s sunk timestamp_ns copied v =
    with_frame-Queues n s sunk timestamp_ns _ copied
      (acquire-Acquires n s.pool _ timestamp_ns v.pool v.small)

-- The frame that a round of `run` hands to the sinks is the oldest in flight, with its own time.
abbrev pub HandsOn : Stage → Stage × Option ℕ → Type 0
HandsOn s (s', none) = queued s' ≡ queued s
HandsOn s (s', some frame) = queued s ≡ stamp_at s'.pool.frames frame ∷ queued s'

pub poll_front-HandsOn :
    (s : Stage) (fs : List InFlight) (fired : Bool) (now : ℕ)
    → s.inflight ≡ fs
    → HandsOn s (poll_front s fs fired now)
poll_front-HandsOn s [] fired now e = refl
poll_front-HandsOn s (f ∷ rest) false now e = refl
poll_front-HandsOn s (f ∷ rest) true now e =
    ap (stamps_of s.pool.frames) e
    ∙ sym (
        ap₂ ◌∷◌ (stamp_at-hosted s.pool.frames f.frame f.frame now) (
          stamps_of-same s.pool.frames _ rest (λ i _. stamp_at-hosted s.pool.frames f.frame i now)))

-- A round of `run` hands on nothing and keeps the queue, or hands on its oldest frame.
pub poll-HandsOn : (s : Stage) (fired : Bool) (now : ℕ) → HandsOn s (poll s fired now)
unfolding poll
poll-HandsOn s fired now =
    elim s.running
      as (λ b. HandsOn s (if not b then (s, none) else poll_front s s.inflight fired now)) [
        | true ↦ poll_front-HandsOn s s.inflight fired now refl
        | false ↦ refl
      ]
