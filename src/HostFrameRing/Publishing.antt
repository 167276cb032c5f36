-- ===== src/HostFrameRing/Publishing.antt =====
-- The sections of `publish` of pipeline/src/host_frame_ring.cpp keep the slot bookkeeping.
use perception_pipeline.HostFrameRing.Search.{find_free-Finds}
use perception_pipeline.Prelude.{
  refl, ap, not, if◌then◌else◌, false, inc64, dec32, true, Bool, no_slot, ◌==◌, inl, inr, List,
  arith, get_or, get_or-set_self, length, length-set, none, set, some, ℕ, ◌<◌, ◌∙◌, ◌≡◌, ◌≢◌,
}
use perception_pipeline.HostFrameRing.{
  blank, Frame, slot, filled, full, stopped, Reserved, Ring, fill, find_free, reserve, reject,
  hold_for_copy,
}
use perception_pipeline.HostFrameRing.World.{reserved, World}
use perception_pipeline.HostFrameRing.Invariant.{
  get_or-beyond, get_or-default, CopyApart, used-le-length, IsValid,
}
use perception_pipeline.HostFrameRing.Writes.{set-Wrote}

hold_for_copy-IsValid :
    (w : World) (s : ℕ)
    → IsValid w
    → w.pending ≡ none
    → s < length w.ring.holds
    → get_or w.ring.holds s 0 ≡ 0
    → s ≢ w.ring.latest
    → IsValid (record w { ring = hold_for_copy w.ring s; pending = some s })
hold_for_copy-IsValid w s v idle lt free ne =
    let wrote = set-Wrote w.ring.holds s 1 lt in
    record {
      shape = wrote.as_long ∙ v.shape;
      small = omega (arith, wrote.as_long, v.small);
      tally = λ i. ground (arith, v.tally i, v.tally s, wrote.here, wrote.elsewhere i 0);
      total = ground (arith, v.total, wrote.summed);
      busy = ground (
        arith,
        v.busy,
        v.small,
        wrote.counted,
        wrote.elsewhere w.ring.latest 1,
        used-le-length (set w.ring.holds s 1) w.ring.latest,
        wrote.as_long,
      );
      newest = ground (arith, v.newest, wrote.as_long);
      apart = (omega (arith, wrote.as_long), ne, ground (arith, v.tally s));
    }

-- The flags and the drop counter are not part of the bookkeeping.
pub flags-IsValid :
    (w : World) (publishing running : Bool) (dropped : ℕ)
    → IsValid w
    → IsValid (record w {
      ring = record w.ring { publishing = publishing; running = running; drops = dropped };
    })
flags-IsValid w publishing running dropped v = record {
  shape = v.shape;
  small = v.small;
  tally = v.tally;
  total = v.total;
  busy = v.busy;
  newest = v.newest;
  apart = v.apart;
}

-- The three ways out of the first section of `publish`.
pub reserve_cases {ℓ} :
    (P : Ring × Reserved → Type ℓ) (r : Ring)
    → (r.running ≡ false → P (record r { publishing = true }, stopped))
    → (r.running ≡ true
        → find_free r.latest r.holds 0 ≡ no_slot
        → P (record r { publishing = true; drops = inc64 r.drops }, full))
    → (r.running ≡ true
        → find_free r.latest r.holds 0 ≢ no_slot
        → P (hold_for_copy r (find_free r.latest r.holds 0), slot (find_free r.latest r.holds 0)))
    → P (reserve r)
unfolding reserve
reserve_cases P r on_stopped on_full on_slot = by_running r.running refl
  where
    by_search :
        (b : Bool)
        → r.running ≡ true
        → (find_free r.latest r.holds 0 == no_slot) ≡ b
        → P (
            if b then (record r { publishing = true; drops = inc64 r.drops }, full) else (
              hold_for_copy r (find_free r.latest r.holds 0),
              slot (find_free r.latest r.holds 0),
            ))
    by_search true e f = on_full e (ground arith)
    by_search false e f = on_slot e (ground arith)

    by_running :
        (b : Bool)
        → r.running ≡ b
        → P (
            if not b
            then (record r { publishing = true }, stopped)
            else if find_free r.latest r.holds 0 == no_slot
            then (record r { publishing = true; drops = inc64 r.drops }, full)
            else (
              hold_for_copy r (find_free r.latest r.holds 0),
              slot (find_free r.latest r.holds 0),
            ))
    by_running false e = on_stopped e
    by_running true e = by_search (find_free r.latest r.holds 0 == no_slot) e refl

pub reserve-IsValid :
    (w : World) → IsValid w → w.pending ≡ none → IsValid (reserved w (reserve w.ring))
reserve-IsValid w v e =
    reserve_cases (λ result. IsValid (reserved w result)) w.ring
      (λ _. flags-IsValid w true w.ring.running w.ring.drops v)
      (λ _ _. flags-IsValid w true w.ring.running (inc64 w.ring.drops) v)
      (λ _ found. elim (find_free-Finds w.ring.latest w.ring.holds 0) [
        | inl none_free ↦ absurd (found none_free)
        | inr (k, at, lt, free, ne) ↦
            hold_for_copy-IsValid w (find_free w.ring.latest w.ring.holds 0) v e (omega arith)
              (ground (arith, get_or-default w.ring.holds k 0 1 lt)) (ground arith)
      ])

pub reject-IsValid :
    (w : World) (s : ℕ)
    → IsValid w
    → w.pending ≡ some s
    → IsValid (record w { ring = reject w.ring s; pending = none })
unfolding reject
reject-IsValid w s v e =
    let apart : CopyApart (some s) w.ring.latest w.ring.holds w.held = rw e at v.apart in
    let wrote = set-Wrote w.ring.holds s 0 apart.0 in
    record {
      shape = wrote.as_long ∙ v.shape;
      small = omega (arith, wrote.as_long, v.small);
      tally = λ i. ground (arith, v.tally i, v.tally s, wrote.here, wrote.elsewhere i 0);
      total = ground (arith, v.total, v.tally s, wrote.summed);
      busy = ground (
        arith,
        v.busy,
        v.small,
        v.tally s,
        wrote.counted,
        wrote.elsewhere w.ring.latest 1,
        used-le-length w.ring.holds w.ring.latest,
      );
      newest = ground (arith, v.newest, wrote.as_long);
      apart = tt;
    }

pub fill-IsValid :
    (w : World) (s : ℕ) (content : List ℕ) (timestamp_ns : ℕ)
    → IsValid w
    → w.pending ≡ some s
    → IsValid (record w { ring = fill w.ring s content timestamp_ns; pending = none })
unfolding fill
fill-IsValid w s content timestamp_ns v e =
    let apart : CopyApart (some s) w.ring.latest w.ring.holds w.held = rw e at v.apart in
    let wrote = set-Wrote w.ring.holds s (dec32 (get_or w.ring.holds s 0)) apart.0 in
    record {
      shape = ground (
        arith,
        wrote.as_long,
        v.shape,
        length-set w.ring.frames s (filled w.ring content timestamp_ns),
      );
      small = omega (arith, wrote.as_long, v.small);
      tally = λ i. ground (arith, v.tally i, v.tally s, wrote.here, wrote.elsewhere i 0);
      total = ground (arith, v.total, v.tally s, wrote.summed);
      busy = ground (
        arith,
        v.busy,
        v.small,
        v.newest,
        v.tally s,
        wrote.here,
        wrote.counted,
        wrote.elsewhere w.ring.latest 0,
        wrote.elsewhere w.ring.latest 1,
        get_or-default w.ring.holds w.ring.latest 0 1,
        get_or-default (set w.ring.holds s (dec32 (get_or w.ring.holds s 0))) s 0 1,
        get_or-beyond w.ring.holds w.ring.latest 1,
        wrote.as_long,
        used-le-length w.ring.holds w.ring.latest,
      );
      newest = inr (
        omega (arith, wrote.as_long),
        ap (λ (f : Frame). f.sequence)
            (get_or-set_self w.ring.frames s (filled w.ring content timestamp_ns) (blank 0)
              (omega (arith, v.shape))),
      );
      apart = tt;
    }
