-- ===== src/HostFrameRing/Reading.antt =====
-- `acquire_latest` and `Store::release` of pipeline/src/host_frame_ring.cpp keep the slot
-- bookkeeping.
use perception_pipeline.Prelude.{
  length-erase_one, count-erase_one, erase_one, count-le-length, get_elem?, Option-cases, ltb, ◌-◌,
  inc32, ◌∷◌, refl, count, not, if◌then◌else◌, false, ◌≤◌, true, Bool, ◌==◌, inl, inr, Bool-cases,
  Option, List, arith, get_or, length, none, set, some, ℕ, ◌+◌, ◌<◌, ◌∙◌, ◌≡◌,
}
use perception_pipeline.HostFrameRing.{
  acquire_latest, handle, waiting, let_go, null, Acquired, hand_over, Consumer, release, Ring,
  take_newest,
}
use perception_pipeline.HostFrameRing.World.{acquired, drop_handle, World}
use perception_pipeline.HostFrameRing.Invariant.{
  get_or-in_range, copies_at, get_or-default, CopyApart, used-le-length, IsValid,
}
use perception_pipeline.HostFrameRing.Writes.{set-Wrote}

copies_at-apart : (w : World) → IsValid w → copies_at w.pending w.ring.latest ≡ 0
copies_at-apart w v = ground (arith, v.apart)

pub take_newest_cases {ℓ} :
    (P : Ring × Acquired → Type ℓ) (r : Ring) (c : ℕ) (reader : Consumer)
    → P (r, null)
    → P (r, waiting)
    → (r.running ≡ true → reader.cursor < r.latest_seq → P (hand_over r c reader, handle r.latest))
    → P (take_newest r c reader)
unfolding take_newest
take_newest_cases P r c reader on_null on_waiting on_handle = by_running r.running refl
  where
    by_cursor :
        (b : Bool)
        → r.running ≡ true
        → ltb reader.cursor r.latest_seq ≡ b
        → P (if b then (hand_over r c reader, handle r.latest) else (r, waiting))
    by_cursor true e f = on_handle e (ground arith)
    by_cursor false e f = on_waiting

    by_running :
        (b : Bool)
        → r.running ≡ b
        → P (
            if not b
            then (r, null)
            else if ltb reader.cursor r.latest_seq
            then (hand_over r c reader, handle r.latest)
            else (r, waiting))
    by_running false e = on_null
    by_running true e = by_cursor (ltb reader.cursor r.latest_seq) e refl

CopyApart-more :
    (p : Option ℕ) (l : ℕ) (xs ys held : List ℕ)
    → length ys ≡ length xs
    → CopyApart p l xs held
    → CopyApart p l ys (l ∷ held)
CopyApart-more none l xs ys held e a = tt
CopyApart-more (some s) l xs ys held e a = ground arith

CopyApart-less :
    (p : Option ℕ) (l t : ℕ) (xs ys held : List ℕ)
    → length ys ≡ length xs
    → 1 ≤ count t held
    → CopyApart p l xs held
    → CopyApart p l ys (erase_one t held)
CopyApart-less none l t xs ys held e live a = tt
CopyApart-less (some s) l t xs ys held e live a = ground (arith, count-erase_one t s held)

hand_over-IsValid :
    (w : World) (c : ℕ) (reader : Consumer)
    → IsValid w
    → length w.held + 2 ≤ 0xffff_ffff
    → 0 < w.ring.latest_seq
    → IsValid (record w { ring = hand_over w.ring c reader; held = w.ring.latest ∷ w.held })
hand_over-IsValid w c reader v fits some_frame =
    let l = w.ring.latest in
    let in_range : l < length w.ring.holds = ground (arith, v.newest) in
    let wrote = set-Wrote w.ring.holds l (inc32 (get_or w.ring.holds l 0)) in_range in
    record {
      shape = wrote.as_long ∙ v.shape;
      small = omega (arith, wrote.as_long, v.small);
      tally = λ i. ground (
        arith,
        fits,
        v.total,
        v.tally i,
        v.tally l,
        wrote.here,
        wrote.elsewhere i 0,
        count-le-length l w.held,
        copies_at-apart w v,
      );
      total = ground (
        arith,
        fits,
        v.total,
        v.tally l,
        wrote.summed,
        count-le-length l w.held,
        copies_at-apart w v,
      );
      busy = ground (
        arith,
        fits,
        v.busy,
        v.total,
        v.tally l,
        wrote.here,
        wrote.counted,
        count-le-length l w.held,
        copies_at-apart w v,
        get_or-default w.ring.holds l 0 1,
        get_or-default (set w.ring.holds l (inc32 (get_or w.ring.holds l 0))) l 0 1,
        wrote.as_long,
      );
      newest = ground (arith, v.newest, wrote.as_long);
      apart = CopyApart-more w.pending l _ _ w.held wrote.as_long v.apart;
    }

take_newest-IsValid :
    (w : World) (c : ℕ) (reader : Consumer)
    → IsValid w
    → length w.held + 2 ≤ 0xffff_ffff
    → IsValid (acquired w (take_newest w.ring c reader))
take_newest-IsValid w c reader v fits =
    take_newest_cases (λ result. IsValid (acquired w result)) w.ring c reader v v
      (λ _ newer. hand_over-IsValid w c reader v fits (omega arith))

let_go-IsValid :
    (w : World) (s : ℕ)
    → IsValid w
    → 1 ≤ count s w.held
    → IsValid (record w {
      ring = let_go w.ring s (get_or w.ring.holds s 0 - 1);
      held = erase_one s w.held;
    })
let_go-IsValid w s v live =
    let in_range = get_or-in_range w.ring.holds s (omega (arith, v.tally s)) in
    let wrote = set-Wrote w.ring.holds s (get_or w.ring.holds s 0 - 1) in_range in
    record {
      shape = wrote.as_long ∙ v.shape;
      small = omega (arith, wrote.as_long, v.small);
      tally = λ i. ground (
        arith,
        v.tally i,
        v.tally s,
        wrote.here,
        wrote.elsewhere i 0,
        count-erase_one s i w.held,
      );
      total = ground (arith, v.total, v.tally s, wrote.summed, length-erase_one s w.held);
      busy = ground (
        arith,
        v.busy,
        v.small,
        v.tally s,
        wrote.here,
        wrote.counted,
        wrote.elsewhere w.ring.latest 1,
        get_or-default w.ring.holds s 0 1,
        get_or-default (set w.ring.holds s (get_or w.ring.holds s 0 - 1)) s 0 1,
        wrote.as_long,
        used-le-length w.ring.holds w.ring.latest,
      );
      newest = ground (arith, v.newest, wrote.as_long);
      apart = CopyApart-less w.pending w.ring.latest s _ _ w.held wrote.as_long live v.apart;
    }

pub drop_handle-IsValid : (w : World) (s : ℕ) → IsValid w → IsValid (drop_handle w s)
unfolding release
drop_handle-IsValid w s v = elim (Bool-cases (count s w.held == 0)) [
  | inl gone ↦ rw gone v
  | inr live ↦ elim (Bool-cases (get_or w.ring.holds s 0 == 0)) [
    | inl zero_holds ↦ absurd (ground (arith, v.tally s))
    | inr some_holds ↦ rw (live, some_holds, release) (let_go-IsValid w s v (ground arith))
  ]
]

pub acquire-IsValid :
    (w : World) (c : ℕ)
    → IsValid w
    → length w.held + 2 ≤ 0xffff_ffff
    → IsValid (acquired w (acquire_latest w.ring c))
unfolding acquire_latest
acquire-IsValid w c v fits = elim (Option-cases (get_elem? w.ring.consumers c)) [
  | inl missing ↦ rw (missing, acquire_latest) v
  | inr (reader, there) ↦ rw (there, acquire_latest) (take_newest-IsValid w c reader v fits)
]
