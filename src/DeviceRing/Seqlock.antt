-- ===== src/DeviceRing/Seqlock.antt =====
-- The producer and the consumers of one ring, interleaved one atomic access at a time: the steps of
-- acquire_write_impl, publish_slot and abandon_slot against those of lease_latest,
-- lease_by_timestamp and drop_slot_hold. A producer may choose any slot, and a search of the
-- consumers may end with any slot and any even seq: what a scan of changing slots answers is
-- left open. One step is one access of `latest_` or of a slot's seq, readers or timestamp; the counters
-- that no guard reads (published_, wait_seq_, write_drops_) change in the step of the access before
-- them. A wait is a step that changes nothing.
use perception_pipeline.Prelude.{
  Bool, List, [], get_or, if◌then◌else◌, inc64, length, ltb, no_slot, no_timestamp, replicate, set,
  ℕ, ◌==◌, ◌∷◌,
}
use perception_pipeline.DeviceRing.{
  Ring, slot_count, is_odd, bump, count_in, count_out, store_stamp, announce,
}

pub data Writer : Type 0 where
  resting : Writer
  chosen : ℕ → Writer
  fenced : ℕ → Writer
  writing : ℕ → Writer
  publishing : ℕ → Writer
  announcing : ℕ → Writer
  voided : ℕ → Writer

pub data Reader : Type 0 where
  idle : Reader
  looked : ℕ → Reader
  saw : ℕ → ℕ → Reader
  counted : ℕ → ℕ → Reader
  backing : ℕ → Reader
  verified : ℕ → Reader
  holding : ℕ → ℕ → Reader

pub record World : Type 0 where
  pub ring : Ring
  pub writer : Writer
  pub threads : List Reader

pub data Event : Type 0 where
  chooses : ℕ → Event
  advances : Bool → Event
  publishes : ℕ → Event
  abandons : Event
  finds : ℕ → ℕ → ℕ → Event
  moves : ℕ → Event
  drops : ℕ → Event

abbrev pub go : World → Ring → Writer → World
go w r x = record w { ring = r; writer = x }

abbrev pub chooses_slot : World → Writer → ℕ → World
chooses_slot w resting s = if ltb s (slot_count w.ring) then go w w.ring (chosen s) else w
chooses_slot w _ s = w

abbrev pub passes : World → ℕ → Bool → World
passes w s blocking =
    if get_or w.ring.readers s 0 == 0
    then go w w.ring (writing s)
    else if blocking
    then w
    else (let back = bump w.ring s in
        go w (record back { write_drops = inc64 w.ring.write_drops }) resting)

abbrev pub writer_advances : World → Writer → Bool → World
writer_advances w (chosen s) b = go w (bump w.ring s) (fenced s)
writer_advances w (fenced s) b = passes w s b
writer_advances w (publishing s) b = go w (bump w.ring s) (announcing s)
writer_advances w (announcing s) b = go w (announce w.ring s) resting
writer_advances w (voided s) b = go w (bump w.ring s) resting
writer_advances w resting b = w
writer_advances w (writing s) b = w

abbrev pub writer_publishes : World → Writer → ℕ → World
writer_publishes w (writing s) t = go w (store_stamp w.ring s t) (publishing s)
writer_publishes w _ t = w

abbrev pub writer_abandons : World → Writer → World
writer_abandons w (writing s) = go w (store_stamp w.ring s no_timestamp) (voided s)
writer_abandons w _ = w

abbrev pub become : World → Ring → ℕ → Reader → World
become w r i x = record w { ring = r; threads = set w.threads i x }

abbrev pub reader_finds : World → ℕ → Reader → ℕ → ℕ → World
reader_finds w i idle s q = if is_odd q then w else become w w.ring i (saw s q)
reader_finds w i _ s q = w

abbrev pub reader_moves : World → ℕ → Reader → World
reader_moves w i idle =
    if w.ring.latest == no_slot then w else become w w.ring i (looked w.ring.latest)
reader_moves w i (looked s) =
    if is_odd (get_or w.ring.seq s 0)
    then become w w.ring i idle
    else become w w.ring i (saw s (get_or w.ring.seq s 0))
reader_moves w i (saw s q) = become w (count_in w.ring s) i (counted s q)
reader_moves w i (counted s q) =
    if get_or w.ring.seq s 0 == q
    then become w w.ring i (verified s)
    else become w w.ring i (backing s)
reader_moves w i (verified s) = become w w.ring i (holding s (get_or w.ring.timestamp_ns s 0))
reader_moves w i (backing s) = become w (count_out w.ring s) i idle
reader_moves w i (holding s t) = w

abbrev pub reader_drops : World → ℕ → Reader → World
reader_drops w i (holding s t) = become w (count_out w.ring s) i idle
reader_drops w i _ = w

abbrev pub on_thread : World → ℕ → World → World
on_thread w i w' = if ltb i (length w.threads) then w' else w

unfoldable pub step : World → Event → World
step w (chooses s) = chooses_slot w w.writer s
step w (advances b) = writer_advances w w.writer b
step w (publishes t) = writer_publishes w w.writer t
step w abandons = writer_abandons w w.writer
step w (finds i s q) = on_thread w i (reader_finds w i (get_or w.threads i idle) s q)
step w (moves i) = on_thread w i (reader_moves w i (get_or w.threads i idle))
step w (drops i) = on_thread w i (reader_drops w i (get_or w.threads i idle))

unfoldable pub run : World → List Event → World
unfolding step
run w [] = w
run w (e ∷ es) = run (step w e) es

-- A ring at rest, and `k` consumers.
abbrev pub opened : Ring → ℕ → World
opened r k = record { ring = r; writer = resting; threads = replicate k idle }
