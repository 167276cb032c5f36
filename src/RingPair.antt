-- ===== src/RingPair.antt =====
-- pipeline/include/ring_pair_consumer.hpp and pipeline/src/ring_pair_consumer.cpp: one step of the
-- consumer that pairs the frames of two device rings. What the rings answer during the step, which other
-- threads move meanwhile, is an argument; the calls of CUDA and the sleep between retries change no state here.
pub mod Retries
mod Tests
use perception_pipeline.Prelude.{
  Bool, Option, add64, if◌then◌else◌, inc64, leb, ltb, max, none, not, some, suc, true, zero, ℕ,
  ◌&&◌, ◌+◌, ◌-◌, ◌==◌, ◌||◌,
}
use perception_pipeline.Prelude.Int.{ℤ, nat_abs}
use perception_pipeline.FramePairing.{difference}
use perception_pipeline.DeviceRing.Reads.{FramePeek, ReadLease}

pub record PairConfig : Type 0 where
  pub tolerance_ns : ℕ
  pub retry_attempts : ℕ

pub record PairConsumer : Type 0 where
  pub config : PairConfig
  pub have_last : Bool
  pub last_slot : ℕ
  pub last_seq : ℕ
  pub last_published : ℕ
  pub next_pair_id : ℕ
  pub paired : ℕ
  pub unpaired : ℕ
  pub late_partner : ℕ
  pub reference_missed : ℕ
  pub reference_skipped : ℕ
  pub max_abs_skew_ns : ℕ

-- The constructor's two tests, on the rings' identities and their max_consumers.
unfoldable pub is_accepted : ℕ → ℕ → ℕ → ℕ → ℕ → Bool
is_accepted reference other max_reference max_other consumer_id =
    not (leb max_reference consumer_id || leb max_other consumer_id) && not (reference == other)

-- view_latest_inplace, lease_latest and published of the reference ring, and lease_by_timestamp of
-- the other at each attempt, with the timestamp and the tolerance it is asked for.
pub record RingAnswers : Type 0 where
  pub peek : Option FramePeek
  pub reference : Option ReadLease
  pub published : ℕ
  pub partner_at : ℕ → ℕ → ℕ → Option ReadLease

pub data Partner : Type 0 where
  no_partner : Partner
  partner : ReadLease → ℕ → Partner

-- The attempts from number `k` on, with `n` retries left.
unfoldable pub find_partner : (ℕ → Option ReadLease) → ℕ → ℕ → Partner
find_partner ask k zero = elim (ask k) [ none ↦ no_partner | some lease ↦ partner lease k ]
find_partner ask k (suc n) = elim (ask k) [
  | none ↦ find_partner ask (k + 1) n
  | some lease ↦ partner lease k
]

pub data Stepped : Type 0 where
  no_pair : PairConsumer → Stepped
  pair : ReadLease → ReadLease → ℤ → ℕ → PairConsumer → Stepped

abbrev pub is_seen : PairConsumer → FramePeek → Bool
is_seen c p = c.have_last && p.slot == c.last_slot && p.slot_seq == c.last_seq

-- The bookkeeping on a new reference frame.
abbrev pub take_reference : PairConsumer → ReadLease → ℕ → PairConsumer
take_reference c lease published = record c {
  reference_skipped =
      if c.have_last && ltb c.last_published published
      then add64 c.reference_skipped (published - c.last_published - 1)
      else c.reference_skipped;
  last_published = published;
  last_slot = lease.slot;
  last_seq = lease.seq;
  have_last = true;
}

abbrev pub join : PairConsumer → ReadLease → Partner → Stepped
join c reference no_partner = no_pair (record c { unpaired = inc64 c.unpaired })
join c reference (partner other attempt) =
    pair reference other (difference other.timestamp_ns reference.timestamp_ns) c.next_pair_id
      record c {
        late_partner = if ltb 0 attempt then inc64 c.late_partner else c.late_partner;
        max_abs_skew_ns =
            max c.max_abs_skew_ns (nat_abs (difference other.timestamp_ns reference.timestamp_ns));
        next_pair_id = inc64 c.next_pair_id;
        paired = inc64 c.paired;
      }

unfoldable pub pair_reference : PairConsumer → RingAnswers → Option ReadLease → Stepped
unfolding find_partner
pair_reference c a none = no_pair (record c { reference_missed = inc64 c.reference_missed })
pair_reference c a (some reference) = join (take_reference c reference a.published) reference (
    find_partner (a.partner_at reference.timestamp_ns c.config.tolerance_ns) 0
      c.config.retry_attempts)

abbrev pub on_peek : PairConsumer → RingAnswers → Option FramePeek → Stepped
on_peek c a none = no_pair c
on_peek c a (some p) = if is_seen c p then no_pair c else pair_reference c a a.reference

unfoldable pub pair_step : PairConsumer → RingAnswers → Stepped
unfolding pair_reference
pair_step c a = on_peek c a a.peek
