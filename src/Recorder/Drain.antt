-- ===== src/Recorder/Drain.antt =====
-- The rounds of the writer thread's loop that close waits for.
use perception_pipeline.Recorder.Order.{
  unwritten, run-Ordered, run-Ordered_from, IsUnused, outs, messages,
}
use perception_pipeline.Recorder.Steps.{
  initial, empty, run, put_message, take_message, give_back, left, step, Step, World,
}
use perception_pipeline.Recorder.{Recorder, recycle, write_message, pop, Message}
use perception_pipeline.Prelude.{
  Bool, List, [], ap, append-nil, arith, false, length, refl, sym, true, ℕ, ◌++◌, ◌<◌, ◌∙◌, ◌∷◌,
  ◌≡◌,
}

-- Rounds of the run loop, with the library's answers for them.
abbrev pub rounds : List Bool → List Step
rounds [] = []
rounds (fine ∷ answers) = take_message ∷ put_message fine ∷ give_back ∷ rounds answers

-- The thread has left its loop, and the library was given all that was accepted.
pub record Drained (channel : ℕ → ℕ) (accepted : List Message) (w : World) : Type 0 where
  pub exited : w.hand ≡ left
  pub no_queue : w.recorder.queue ≡ []
  pub given : List (Message × Bool)
  pub all : accepted ≡ messages given
  pub file : w.file ≡ outs channel [] given

record Exits (w v : World) : Type 0 where
  exited : v.hand ≡ left
  no_queue : v.recorder.queue ≡ []
  same : v.accepted ≡ w.accepted

stays_left : (answers : List Bool) (w : World) → w.hand ≡ left → run (rounds answers) w ≡ w
unfolding step
stays_left [] w e = refl
stays_left (fine ∷ answers) w e = rw e (stays_left answers (record w { hand = left }) refl)

-- A round of the loop: with a message it writes it and gives its buffer back, else it leaves.
round : Bool → World → World
round fine w = step give_back (step (put_message fine) (step take_message w))

round-message :
    (w : World) (fine : Bool) (m : Message) (queue : List Message)
    → w.recorder.queue ≡ m ∷ queue
    → w.hand ≡ empty
    → ((round fine w).hand ≡ empty)
      × (((round fine w).recorder.queue ≡ queue)
          × (((round fine w).recorder.running ≡ w.recorder.running)
              × ((round fine w).accepted ≡ w.accepted)))
unfolding round step pop write_message recycle
round-message w true m queue e f = rw f (rw e (refl, (refl, (refl, refl))))
round-message w false m queue e f = rw f (rw e (refl, (refl, (refl, refl))))

round-empty :
    (w : World) (fine : Bool)
    → w.recorder.queue ≡ []
    → w.hand ≡ empty
    → w.recorder.running ≡ false
    → ((round fine w).hand ≡ left)
      × (((round fine w).recorder.queue ≡ []) × ((round fine w).accepted ≡ w.accepted))
unfolding round step pop
round-empty w fine e f g = rw f (rw e (rw g (refl, (refl, refl))))

rounds-Exits :
    (queue : List Message) (answers : List Bool) (w : World)
    → w.recorder.queue ≡ queue
    → w.hand ≡ empty
    → w.recorder.running ≡ false
    → length queue < length answers
    → Exits w (run (rounds answers) w)
unfolding round
rounds-Exits queue [] w e f g l = absurd (omega (arith, l))
rounds-Exits [] (fine ∷ answers) w e f g l =
    let (h, (q, a)) = round-empty w fine e f g in
    let stays = stays_left answers (round fine w) h in
    record {
      exited = ap (λ v. v.hand) stays ∙ h;
      no_queue = ap (λ v. v.recorder.queue) stays ∙ q;
      same = ap (λ v. v.accepted) stays ∙ a;
    }
rounds-Exits (m ∷ queue) (fine ∷ answers) w e f g l =
    let (h, (q, (r, a))) = round-message w fine m queue e f in
    let rest = rounds-Exits queue answers (round fine w) q h (r ∙ g) (omega (arith, l)) in
    record { exited = rest.exited; no_queue = rest.no_queue; same = rest.same ∙ a }

-- In every run of the threads around a recorder that has written nothing at first: once close has stopped
-- it and the writer thread has nothing in its hand, as many rounds of its loop as there are queued
-- messages, and one more, whatever the library answers in them, end with the thread out of its
-- loop, the queue empty, and every message whose push returned true given to the library, in the
-- order in which they were accepted.
pub rounds-Drained :
    (r : Recorder) (steps : List Step) (answers : List Bool)
    → IsUnused r
    → (run steps (initial r)).recorder.running ≡ false
    → (run steps (initial r)).hand ≡ empty
    → length (run steps (initial r)).recorder.queue < length answers
    → Drained
        (λ i. (r.topics i).channel_id)
        (run steps (initial r)).accepted
        (run (rounds answers) (run steps (initial r)))
rounds-Drained r steps answers h stopped idle enough =
    let channel : ℕ → ℕ = λ i. (r.topics i).channel_id in
    let w = run steps (initial r) in
    let e = rounds-Exits w.recorder.queue answers w refl idle stopped enough in
    let o = run-Ordered_from channel (rounds answers) w (run-Ordered r steps h) in
    let v = run (rounds answers) w in
    let nothing_left : unwritten v.hand ++ v.recorder.queue ≡ [] =
      ap (λ k. unwritten k ++ v.recorder.queue) e.exited ∙ e.no_queue in
    record {
      exited = e.exited;
      no_queue = e.no_queue;
      given = o.given;
      all =
          sym e.same
          ∙ (o.order
              ∙ (ap (λ q. messages o.given ++ q) nothing_left ∙ append-nil (messages o.given)));
      file = o.file;
    }
