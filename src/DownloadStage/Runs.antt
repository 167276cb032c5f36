-- ===== src/DownloadStage/Runs.antt =====
-- The stage of pipeline/src/download_stage.cpp when it is started again after a stop.
use perception_pipeline.Prelude.{
  Bool, List, Option, [], ap, arith, erase_one, false, if◌then◌else◌, length, length-zero, none,
  not, refl, some, subst, sym, true, ℕ, ◌++◌, ◌+◌, ◌<◌, ◌^◌, ◌∷◌, ◌≡◌,
}
use perception_pipeline.HostFramePool.{release, Pool}
use perception_pipeline.HostFramePool.Exclusive.{IsExclusive}
use perception_pipeline.HostFramePool.Whole.{acquire-Acquires, Acquires, quiet, release-IsExclusive}
use perception_pipeline.DownloadStage.{
  with_frame, InFlight, Stage, refused, start, stop, enqueue, poll, release_all, poll_front,
}
use perception_pipeline.DownloadStage.Events.{IsSound, slots_of}

-- Calls that the stage serves one after the other: an enqueue, whose copy starts or fails, or a round of its
-- thread.
pub data Call : Type 0 where
  enqueues : ℕ → Bool → Call
  polls : Bool → ℕ → Call

unfoldable pub serve : Stage → List Call → Stage
serve s [] = s
serve s (enqueues timestamp_ns copied ∷ cs) = serve (enqueue s timestamp_ns copied).0 cs
serve s (polls fired now ∷ cs) = serve (poll s fired now).0 cs

pub erase_one-head : (s : ℕ) (xs : List ℕ) → erase_one s (s ∷ xs) ≡ xs
erase_one-head s xs = ground arith

pub release_all-IsExclusive :
    (n : ℕ) (p : Pool) (fs : List InFlight) (sunk : List ℕ)
    → IsExclusive n (quiet p (slots_of fs ++ sunk))
    → IsExclusive n (quiet (release_all p fs) sunk)
unfolding release_all
release_all-IsExclusive n p [] sunk v = v
release_all-IsExclusive n p (f ∷ fs) sunk v =
    release_all-IsExclusive n (release p f.frame) fs sunk (
      subst (λ xs. IsExclusive n (quiet (release p f.frame) xs)) (erase_one-head f.frame _)
        (release-IsExclusive n p _ f.frame v (ground arith)))

-- The events of the copies that `stop` drops are not free again after a new `start`, although the
-- slots of those copies are: the stage has fewer events than slots from there on.
pub start-stop-fewer_events :
    (n : ℕ) (s : Stage) (sunk : List ℕ)
    → IsSound n s sunk
    → s.running ≡ true
    → IsExclusive n (quiet (start (stop s)).pool sunk)
      × (length (start (stop s)).free_events + length s.inflight ≡ n)
      × ((start (stop s)).inflight ≡ [])
unfolding start stop
start-stop-fewer_events n s sunk v on =
    simp on (release_all-IsExclusive n s.pool s.inflight sunk v.pool, v.paired, refl)

-- No event is free and no copy in flight, and the pool has all its slots.
record IsStarved (n : ℕ) (s : Stage) : Type 0 where
  pub pool : IsExclusive n (quiet s.pool [])
  pub no_events : s.free_events ≡ []
  pub no_copies : s.inflight ≡ []

with_frame-IsStarved :
    (n : ℕ) (s : Stage) (timestamp_ns : ℕ) (copied : Bool) (result : Pool × Option ℕ)
    → IsStarved n s
    → 0 < length s.pool.free
    → Acquires n s.pool [] timestamp_ns result
    → ((with_frame s result copied).1 ≡ refused)
      × ((with_frame s result copied).0.pool.drops ≡ s.pool.drops)
      × IsStarved n (with_frame s result copied).0
unfolding release
with_frame-IsStarved n s timestamp_ns copied (p', none) k some_free dry =
    absurd (ground (arith, ap length dry.empty))
with_frame-IsStarved n s timestamp_ns copied (p', some frame) k some_free t =
    let back = release-IsExclusive n p' (frame ∷ []) frame t.valid (ground arith) in
    let whole =
      subst (λ xs. IsExclusive n (quiet (release p' frame) xs)) (erase_one-head frame []) back in
    simp k.no_events
      (refl, t.drops, record { pool = whole; no_events = refl; no_copies = k.no_copies })

module _ (n : ℕ) (pos : 0 < n) (small : n + 1 < 2 ^ 32) where
  enqueue-IsStarved :
      (s : Stage) (timestamp_ns : ℕ) (copied : Bool)
      → IsStarved n s
      → ((enqueue s timestamp_ns copied).1 ≡ refused)
        × ((enqueue s timestamp_ns copied).0.pool.drops ≡ s.pool.drops)
        × IsStarved n (enqueue s timestamp_ns copied).0
  unfolding enqueue
  enqueue-IsStarved s timestamp_ns copied k =
      with_frame-IsStarved n s timestamp_ns copied _ k (omega (arith, k.pool.total))
        (acquire-Acquires n s.pool [] timestamp_ns k.pool small)

  serve-IsStarved : (s : Stage) (cs : List Call) → IsStarved n s → IsStarved n (serve s cs)
  unfolding serve poll
  serve-IsStarved s [] k = k
  serve-IsStarved s (enqueues timestamp_ns copied ∷ cs) k =
      serve-IsStarved (enqueue s timestamp_ns copied).0 cs
        (enqueue-IsStarved s timestamp_ns copied k).2
  serve-IsStarved s (polls fired now ∷ cs) k =
      serve-IsStarved (poll s fired now).0 cs
        (elim s.running
          as (λ b. IsStarved n (if not b then (s, none) else poll_front s s.inflight fired now).0) [
            | true ↦ subst (λ fs. IsStarved n (poll_front s fs fired now).0) (sym k.no_copies) k
            | false ↦ k
          ])

-- The bug: stopped with a copy in flight for every slot and started again, the stage refuses every
-- frame for good: after any further calls of enqueue and rounds of its thread the pool still has all its
-- slots free, and still the next frame is refused, and not counted as a drop.
pub enqueue-start-stop-refuses :
    (n : ℕ) (s : Stage) (cs : List Call) (timestamp_ns : ℕ) (copied : Bool)
    → IsSound n s []
    → s.running ≡ true
    → length s.inflight ≡ n
    → 0 < n
    → let s' = serve (start (stop s)) cs in
      (length s'.pool.free ≡ n)
      × ((enqueue s' timestamp_ns copied).1 ≡ refused)
      × ((enqueue s' timestamp_ns copied).0.pool.drops ≡ s'.pool.drops)
enqueue-start-stop-refuses n s cs timestamp_ns copied v on full pos =
    let facts = start-stop-fewer_events n s [] v on in
    let starved : IsStarved n (start (stop s)) = record {
      pool = facts.0;
      no_events = length-zero _ (omega (arith, facts.1));
      no_copies = facts.2;
    } in
    let later = serve-IsStarved n pos v.small (start (stop s)) cs starved in
    let answer =
      enqueue-IsStarved n pos v.small (serve (start (stop s)) cs) timestamp_ns copied later in
    (omega (arith, later.pool.total), answer.0, answer.1)
