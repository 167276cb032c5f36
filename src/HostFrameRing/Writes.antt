-- ===== src/HostFrameRing/Writes.antt =====
-- One write to the list of holds of pipeline/src/host_frame_ring.cpp, as the totals see it.
use perception_pipeline.Prelude.{
  List, count_nonzero, count_nonzero-set, get_or, get_or-set_ne, get_or-set_self, length,
  length-set, nonzero, set, sum, sum-set, ℕ, ◌+◌, ◌<◌, ◌≡◌, ◌≢◌,
}

-- One write to the holds, as the invariant sees it.
pub record Wrote (xs ys : List ℕ) (s v : ℕ) : Type 0 where
  pub here : get_or ys s 0 ≡ v
  pub elsewhere : (i d : ℕ) → s ≢ i → get_or ys i d ≡ get_or xs i d
  pub summed : sum ys + get_or xs s 0 ≡ sum xs + v
  pub counted : count_nonzero ys + nonzero (get_or xs s 0) ≡ count_nonzero xs + nonzero v
  pub as_long : length ys ≡ length xs

pub set-Wrote : (xs : List ℕ) (s v : ℕ) → s < length xs → Wrote xs (set xs s v) s v
set-Wrote xs s v h = record {
  here = get_or-set_self xs s v 0 h;
  elsewhere = λ i d ne. get_or-set_ne xs s i v d ne;
  summed = sum-set xs s v h;
  counted = count_nonzero-set xs s v h;
  as_long = length-set xs s v;
}
