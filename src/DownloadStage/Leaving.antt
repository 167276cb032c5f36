-- ===== src/DownloadStage/Leaving.antt =====
-- The sections of pipeline/src/download_stage.cpp by which frames leave: a round of its thread, the end of stop,
-- and a sink that gives a frame back.
use perception_pipeline.Prelude.{
  Bool, List, [], ap, append-nil, append_assoc, arith, count, count-append, count-erase_one,
  erase_one, false, get_or, if◌then◌else◌, length, length-append, length-erase_one, length-set, map,
  none, not, refl, sym, true, ℕ, ◌++◌, ◌∙◌, ◌∷◌, ◌≡◌, ◌≤◌,
}
use perception_pipeline.HostFramePool.{unused, Stamp, release, Pool}
use perception_pipeline.HostFramePool.Exclusive.{IsExclusive}
use perception_pipeline.HostFramePool.Whole.{quiet, release-IsExclusive}
use perception_pipeline.DownloadStage.{
  unused, hand_on, InFlight, Stage, poll, poll_front, release_all,
}
use perception_pipeline.DownloadStage.Events.{
  slots_of, events_of, relist-IsExclusive, count-handed, length-handed,
}
use perception_pipeline.DownloadStage.Order.{
  stamp_at, stamps_of, queued, stamp_at-hosted, poll_front-HandsOn,
}
use perception_pipeline.DownloadStage.Runs.{release_all-IsExclusive}
use perception_pipeline.DownloadStage.Sections.{
  Producer, outside, reserved, armed, launched, Fate, time_of, Log, handed, drops_of, drop_flying,
}
use perception_pipeline.DownloadStage.Places.{slot_in_hand, HasTime, Holds}

map-append_times : (xs ys : List Fate) → map time_of (xs ++ ys) ≡ map time_of xs ++ map time_of ys
map-append_times [] ys = refl
map-append_times (x ∷ xs) ys = ap (◌∷◌ (time_of x)) (map-append_times xs ys)

release_all-frames : (p : Pool) (fs : List InFlight) → (release_all p fs).frames ≡ p.frames
unfolding release_all release
release_all-frames p [] = refl
release_all-frames p (f ∷ fs) = release_all-frames (release p f.frame) fs

times-drops_of :
    (s : Stage) (fs : List InFlight) → map time_of (drops_of s fs) ≡ stamps_of s.pool.frames fs
times-drops_of s [] = refl
times-drops_of s (f ∷ fs) = ap (◌∷◌ (stamp_at s.pool.frames f.frame)) (times-drops_of s fs)

HasTime-same :
    (s s' : Stage) (x : Producer)
    → ((i : ℕ) → stamp_at s'.pool.frames i ≡ stamp_at s.pool.frames i)
    → HasTime s x
    → HasTime s' x
HasTime-same s s' outside same h = refl
HasTime-same s s' (reserved frame t) same h = same frame ∙ h
HasTime-same s s' (armed frame event t) same h = same frame ∙ h
HasTime-same s s' (launched frame event t) same h = same frame ∙ h

module _ (n : ℕ) (l : Log) where
  poll_front-Holds :
      (fs : List InFlight) (fired : Bool) (now : ℕ)
      → l.stage.inflight ≡ fs
      → Holds n l
      → Holds n (handed l (poll_front l.stage fs fired now))
  poll_front-Holds [] fired now e j = j
  poll_front-Holds (f ∷ rest) false now e j = j
  poll_front-Holds (f ∷ rest) true now e j =
      let hand = slot_in_hand l.producer in
      let frames = l.stage.pool.frames in
      let s' = hand_on l.stage f rest now in
      let moved : IsExclusive n (quiet l.stage.pool (hand ++ (slots_of rest ++ f.frame ∷ l.sunk))) =
        relist-IsExclusive n l.stage.pool (hand ++ (slots_of l.stage.inflight ++ l.sunk)) _
          (λ i. omega (
            arith,
            ap (λ fs. count i (slots_of fs ++ l.sunk)) e,
            count-handed i f.frame (slots_of rest) l.sunk,
            count-append i hand (slots_of l.stage.inflight ++ l.sunk),
            count-append i hand (slots_of rest ++ f.frame ∷ l.sunk),
          ))
          (omega (
            arith,
            ap (λ fs. length (slots_of fs ++ l.sunk)) e,
            length-handed f.frame (slots_of rest) l.sunk,
            length-append hand (slots_of l.stage.inflight ++ l.sunk),
            length-append hand (slots_of rest ++ f.frame ∷ l.sunk),
          ))
          j.slots in
      record {
        slots = record {
          shape =
              length-set {A = Stamp} frames f.frame
                (record (get_or frames f.frame unused) { host_ready_ns = now })
              ∙ moved.shape;
          small = moved.small;
          places = moved.places;
          total = moved.total;
          used = moved.used;
        };
        small = j.small;
        events = λ i. ground (
          arith,
          j.events i,
          ap (λ fs. count i (events_of fs)) e,
          count-append i l.stage.free_events (f.event ∷ []),
        );
        timed =
            HasTime-same l.stage s' l.producer (λ i. stamp_at-hosted frames f.frame i now) j.timed;
        order =
            j.order
            ∙ (ap (◌++◌ (map time_of l.left)) (poll_front-HandsOn l.stage (f ∷ rest) true now e)
                ∙ (sym (append_assoc (map time_of l.left) _ (queued s'))
                    ∙ ap (λ ts. ts ++ queued s') (sym (map-append_times l.left _))));
      }

  pub drop_flying-Holds : Holds n l → Holds n (drop_flying l)
  drop_flying-Holds j =
      let hand = slot_in_hand l.producer in
      let flying = slots_of l.stage.inflight in
      let same = release_all-frames l.stage.pool l.stage.inflight in
      record {
        slots = release_all-IsExclusive n l.stage.pool l.stage.inflight (hand ++ l.sunk) (
            relist-IsExclusive n l.stage.pool (hand ++ (flying ++ l.sunk)) _
              (λ i. omega (
                arith,
                count-append i hand (flying ++ l.sunk),
                count-append i flying l.sunk,
                count-append i flying (hand ++ l.sunk),
                count-append i hand l.sunk,
              ))
              (omega (
                arith,
                length-append hand (flying ++ l.sunk),
                length-append flying l.sunk,
                length-append flying (hand ++ l.sunk),
                length-append hand l.sunk,
              ))
              j.slots);
        small = j.small;
        events = λ i. omega (arith, j.events i);
        timed =
            HasTime-same l.stage (drop_flying l).stage l.producer
              (λ i. ap (λ frames. stamp_at frames i) same) j.timed;
        order =
            j.order
            ∙ (ap (◌++◌ (map time_of l.left)) (sym (times-drops_of l.stage l.stage.inflight))
                ∙ (sym (map-append_times l.left _) ∙ sym (append-nil _)));
      }

  pub release-Holds :
      (frame : ℕ)
      → 1 ≤ count frame l.sunk
      → Holds n l
      → Holds n (record l {
        stage = record l.stage { pool = release l.stage.pool frame };
        sunk = erase_one frame l.sunk;
      })
  unfolding release
  release-Holds frame held j =
      let hand = slot_in_hand l.producer in
      let flying = slots_of l.stage.inflight in
      record {
        slots =
            relist-IsExclusive n _ (erase_one frame (hand ++ (flying ++ l.sunk)))
              (hand ++ (flying ++ erase_one frame l.sunk))
              (λ i. ground (
                arith,
                count-append i hand (flying ++ l.sunk),
                count-append i hand (flying ++ erase_one frame l.sunk),
                count-append frame hand (flying ++ l.sunk),
                count-append i flying l.sunk,
                count-append i flying (erase_one frame l.sunk),
                count-append frame flying l.sunk,
                count-erase_one frame i l.sunk,
                count-erase_one frame i (hand ++ (flying ++ l.sunk)),
              ))
              (ground (
                arith,
                count-append frame hand (flying ++ l.sunk),
                count-append frame flying l.sunk,
                length-append hand (flying ++ l.sunk),
                length-append hand (flying ++ erase_one frame l.sunk),
                length-append flying l.sunk,
                length-append flying (erase_one frame l.sunk),
                length-erase_one frame l.sunk,
                length-erase_one frame (hand ++ (flying ++ l.sunk)),
              ))
              (release-IsExclusive n l.stage.pool (hand ++ (flying ++ l.sunk)) frame j.slots (
                ground (
                  arith,
                  count-append frame hand (flying ++ l.sunk),
                  count-append frame flying l.sunk,
                )));
        small = j.small;
        events = j.events;
        timed = j.timed;
        order = j.order;
      }

  pub polls-Holds :
      (fired : Bool) (now : ℕ) → Holds n l → Holds n (handed l (poll l.stage fired now))
  unfolding poll
  polls-Holds fired now k =
      elim l.stage.running
        as (λ b. Holds n (
          handed l
            (if not b then (l.stage, none) else poll_front l.stage l.stage.inflight fired now))) [
              | true ↦ poll_front-Holds l.stage.inflight fired now refl k
              | false ↦ k
            ]
