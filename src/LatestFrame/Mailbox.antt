-- ===== src/LatestFrame/Mailbox.antt =====
-- pipeline/src/latest_frame.cpp as a mailbox for one frame: what comes out of it in which order,
-- and that its counters account for every frame.
use mathlib.Core.List.{Sublist, Sublistᴰ, sublist_of_cons-sublist, cons-sublist-cons}
use mathlib.Core.Logic.{∥∥₁_map}
use native.Mathlib.Nat.{add-zero, zero-add}
use perception_pipeline.Prelude.{
  refl, subst, List, Option, [], arith, false, if◌then◌else◌, length, none, some, suc, true, ℕ, ◌+◌,
  ◌<◌, ◌^◌, ◌∷◌, ◌≡◌, ◌≤◌,
}
use perception_pipeline.LatestFrame.{
  LatestFrame, holding, create, offer, take_latest, acquire_latest, stop,
}

pub data Call {ℓ} (A : Type ℓ) : Type ℓ where
  offers : A → Call A
  takes : Call A
  waits : Call A
  stops : Call A

-- The holder, the frames that the consumer got, latest first, and the frames that were dropped
-- by `stop`, by being offered after it, or by being displaced.
pub record Log {ℓ} (A : Type ℓ) : Type ℓ where
  pub holder : LatestFrame A
  pub taken : List A
  pub lost : List A
  pub refused : ℕ

module _ {ℓ} {A : Type ℓ} where
  abbrev pub onto : Option A → List A → List A
  onto none xs = xs
  onto (some a) xs = a ∷ xs

  unfoldable pub call : Log A → Call A → Log A
  call l (offers a) =
      let (h, displaced) = offer l.holder a in
      record l {
        holder = h;
        lost = onto displaced l.lost;
        refused = (if l.holder.running then l.refused else l.refused + 1);
      }
  call l takes =
      let (h, got) = take_latest l.holder in record l { holder = h; taken = onto got l.taken }
  call l waits = elim (acquire_latest l.holder) [
    | none ↦ l
    | some (h, got) ↦ record l { holder = h; taken = onto got l.taken }
  ]
  call l stops =
      let (h, dropped) = stop l.holder in record l { holder = h; lost = onto dropped l.lost }

  unfoldable pub calls : Log A → List (Call A) → Log A
  calls l [] = l
  calls l (c ∷ cs) = calls (call l c) cs

  abbrev pub opened : Log A
  opened = record { holder = create; taken = []; lost = []; refused = 0 }

  -- The frames that a list of calls offers.
  abbrev pub offered_by : List (Call A) → ℕ
  offered_by [] = 0
  offered_by (offers a ∷ cs) = suc (offered_by cs)
  offered_by (takes ∷ cs) = offered_by cs
  offered_by (waits ∷ cs) = offered_by cs
  offered_by (stops ∷ cs) = offered_by cs

  -- Each accepted frame was taken, lost or is waiting; a frame is skipped only by a newer one.
  pub record Accounts (n : ℕ) (l : Log A) : Type 0 where
    pub total : l.holder.offered ≡ length l.taken + length l.lost + holding l.holder.latest
    pub arrived : l.holder.offered + l.refused ≡ n
    pub skips : l.holder.running ≡ true → l.holder.skipped ≡ length l.lost
    pub stopped : l.holder.running ≡ false → holding l.holder.latest ≡ 0
    pub fewer : l.holder.skipped ≤ length l.lost
    pub one_more : length l.lost ≤ l.holder.skipped + 1

  call-Accounts :
      (n : ℕ) (l : Log A) (c : Call A)
      → n + offered_by (c ∷ []) < 2 ^ 64
      → Accounts n l
      → Accounts (n + offered_by (c ∷ [])) (call l c)
  unfolding call offer take_latest acquire_latest stop
  call-Accounts n l (offers a) h v = ground arith
  call-Accounts n l takes h v = ground arith
  call-Accounts n l waits h v = ground arith
  call-Accounts n l stops h v = ground arith

  offered_by-cons :
      (n : ℕ) (c : Call A) (cs : List (Call A))
      → n + offered_by (c ∷ []) + offered_by cs ≡ n + offered_by (c ∷ cs)
  offered_by-cons n (offers a) cs = omega arith
  offered_by-cons n takes cs = omega arith
  offered_by-cons n waits cs = omega arith
  offered_by-cons n stops cs = omega arith

  calls-Accounts :
      (n : ℕ) (l : Log A) (cs : List (Call A))
      → n + offered_by cs < 2 ^ 64
      → Accounts n l
      → Accounts (n + offered_by cs) (calls l cs)
  unfolding calls
  calls-Accounts n l [] h v = rw add-zero v
  calls-Accounts n l (c ∷ cs) h v =
      subst (λ k. Accounts k (calls (call l c) cs)) (offered_by-cons n c cs)
        (calls-Accounts (n + offered_by (c ∷ [])) (call l c) cs
          (omega (arith, offered_by-cons n c cs))
          (call-Accounts n l c (omega (arith, offered_by-cons n c cs)) v))

  -- From a new holder on, the counters account for every frame that was offered, until 2^64 of
  -- them: it was refused after `stop`, or it was counted, and then taken, lost or is waiting; and
  -- `skipped` is the number of the lost ones, but for the one that `stop` dropped.
  pub calls-opened-Accounts :
      (cs : List (Call A)) → offered_by cs < 2 ^ 64 → Accounts (offered_by cs) (calls opened cs)
  unfolding create
  calls-opened-Accounts cs h =
      subst (λ k. Accounts k (calls opened cs)) (zero-add _)
        (calls-Accounts 0 opened cs (omega arith) (record {
          total = refl;
          arrived = refl;
          skips = λ _. refl;
          stopped = λ _. refl;
          fewer = omega arith;
          one_more = omega arith;
        }))

  -- The frames that a list of calls offers, after those before it, latest first.
  abbrev pub offered_onto : List A → List (Call A) → List A
  offered_onto before [] = before
  offered_onto before (offers a ∷ cs) = offered_onto (a ∷ before) cs
  offered_onto before (takes ∷ cs) = offered_onto before cs
  offered_onto before (waits ∷ cs) = offered_onto before cs
  offered_onto before (stops ∷ cs) = offered_onto before cs

  later : {xs ys : List A} (a : A) → Sublist xs ys → Sublist xs (a ∷ ys)
  later a s = ∥∥₁_map s (λ t. Sublistᴰ.cons t)

  without : (o : Option A) (xs ys : List A) → Sublist (onto o xs) ys → Sublist xs ys
  without none xs ys s = s
  without (some a) xs ys s = sublist_of_cons-sublist s

  -- What was taken, and then what waits, is in the order of the offers.
  abbrev InOrder : Log A → List A → Type ℓ
  InOrder l before = Sublist (onto l.holder.latest l.taken) before

  call-InOrder :
      (l : Log A) (c : Call A) (before : List A)
      → InOrder l before
      → InOrder (call l c) (offered_onto before (c ∷ []))
  unfolding call offer take_latest acquire_latest stop
  call-InOrder l (offers a) before s = ground (
    arith,
    s,
    later a s,
    (cons-sublist-cons {a = a}).1 (without l.holder.latest l.taken before s),
  )
  call-InOrder l takes before s = ground (arith, s, without l.holder.latest l.taken before s)
  call-InOrder l waits before s = ground (arith, s, without l.holder.latest l.taken before s)
  call-InOrder l stops before s = ground (arith, s, without l.holder.latest l.taken before s)

  calls-InOrder :
      (l : Log A) (cs : List (Call A)) (before : List A)
      → InOrder l before
      → InOrder (calls l cs) (offered_onto before cs)
  unfolding calls
  calls-InOrder l [] before s = s
  calls-InOrder l (offers a ∷ cs) before s =
      calls-InOrder (call l (offers a)) cs (a ∷ before) (call-InOrder l (offers a) before s)
  calls-InOrder l (takes ∷ cs) before s =
      calls-InOrder (call l takes) cs before (call-InOrder l takes before s)
  calls-InOrder l (waits ∷ cs) before s =
      calls-InOrder (call l waits) cs before (call-InOrder l waits before s)
  calls-InOrder l (stops ∷ cs) before s =
      calls-InOrder (call l stops) cs before (call-InOrder l stops before s)

  -- The consumer gets frames in the order in which they were offered, and none twice: what it took
  -- is a sublist of what was offered, both latest first.
  pub calls-taken-sublist :
      (cs : List (Call A)) → Sublist (calls opened cs).taken (offered_onto [] cs)
  unfolding create
  calls-taken-sublist cs =
      without (calls opened cs).holder.latest _ _ (calls-InOrder opened cs [] ∣ Sublistᴰ.slnil ∣₁)

  abbrev pub offer_all : LatestFrame A → List A → LatestFrame A
  offer_all h [] = h
  offer_all h (x ∷ xs) = offer_all (offer h x).0 xs

  offer_all_lem :
      (h : LatestFrame A) (xs : List A)
      → h.running ≡ true
      → h.skipped + length xs + 1 < 2 ^ 64
      → ((offer_all h xs).running ≡ true)
        × ((offer_all h xs).skipped + holding (offer_all h xs).latest
            ≡ h.skipped + length xs + holding h.latest)
  unfolding offer
  offer_all_lem h [] on small = ground arith
  offer_all_lem h (x ∷ xs) on small = ground (arith, offer_all_lem (offer h x).0 xs)

  -- With nothing taken in between, the next take gets the newest frame, and each of the others
  -- counts as skipped.
  pub take-offers :
      (h : LatestFrame A) (xs : List A) (x : A)
      → h.running ≡ true
      → h.skipped + length xs + 1 < 2 ^ 64
      → let h' = (offer (offer_all h xs) x).0 in
        ((take_latest h').1 ≡ some x)
        × (h'.skipped ≡ h.skipped + length xs + holding h.latest)
        × (holding (take_latest h').0.latest ≡ 0)
  unfolding offer take_latest
  take-offers h xs x on small = ground (arith, offer_all_lem h xs on small)
