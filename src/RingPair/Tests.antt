-- ===== src/RingPair/Tests.antt =====
-- A step with one retry, and an instance of each theorem.
use perception_pipeline.Prelude.{Option, false, none, refl, some, suc, zero, ℕ, ◌≡◌}
use perception_pipeline.DeviceRing.Reads.{FramePeek, ReadLease}
use perception_pipeline.RingPair.{PairConsumer, RingAnswers, find_partner, pair_step, no_pair}
use perception_pipeline.RingPair.Retries.{
  Earliest, find_partner-Earliest, consumer_after, pair_step-again,
}

abbrev lease_of : ℕ → ReadLease
lease_of t = record { slot = 1; seq = 4; consumer_id = 0; timestamp_ns = t }

-- The partner comes at the second attempt.
abbrev ask : ℕ → Option ReadLease
ask zero = none
ask (suc k) = some (lease_of 905)

find_partner-Earliest_example : Earliest ask 0 3 (find_partner ask 0 3)
find_partner-Earliest_example = find_partner-Earliest ask 0 3

abbrev fresh_consumer : PairConsumer
fresh_consumer = record {
  config = record { tolerance_ns = 50; retry_attempts = 3 };
  have_last = false;
  last_slot = 0;
  last_seq = 0;
  last_published = 0;
  next_pair_id = 0;
  paired = 0;
  unpaired = 0;
  late_partner = 0;
  reference_missed = 0;
  reference_skipped = 0;
  max_abs_skew_ns = 0;
}

abbrev peek : FramePeek
peek = record { timestamp_ns = 900; slot = 1; slot_seq = 4 }

abbrev answers : RingAnswers
answers = record {
  peek = some peek;
  reference = some (lease_of 900);
  published = 1;
  partner_at = λ t tol k. ask k;
}

pair_step-again_example :
    pair_step (consumer_after (pair_step fresh_consumer answers)) answers
    ≡ no_pair (consumer_after (pair_step fresh_consumer answers))
pair_step-again_example =
    pair_step-again fresh_consumer answers answers peek peek (lease_of 900) refl refl refl refl refl
      refl
