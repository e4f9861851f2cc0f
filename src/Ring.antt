-- ===== src/Ring.antt =====
-- The ring buffer of collector.c (ring_push) and of scorer.c (sample_field).
pub mod Window
pub mod Refine
use gpu_health_index.Prelude.{
  ℕ, ◌+◌, ◌-◌, ◌%◌, ◌≤◌, ◌<◌, ◌≡◌, List, length, get_or, set, ltb, if◌then◌else◌, replicate,
}
use gpu_health_index.Double.{Double, nought}
use gpu_health_index.Types.{Sample, Ring}

module _ {D : Type 0} ⦃d : Double D⦄ where
  -- what calloc leaves in a slot
  abbrev pub zero_sample : Sample D
  zero_sample = record {
    power_w = nought;
    power_limit_w = nought;
    temp_c = nought;
    hbm_temp_c = nought;
    sm_clock_mhz = nought;
    ecc_sbe_volatile = 0;
    ecc_dbe_volatile = 0;
    timestamp_ms = 0;
  }

  -- the buffer that collector_start sets up
  abbrev pub fresh_ring : ℕ → Ring D
  fresh_ring capacity = record {
    samples = replicate capacity zero_sample;
    head = 0;
    count = 0;
    capacity = capacity;
  }

  unfoldable pub ring_push : Ring D → Sample D → Ring D
  ring_push r s = record {
    samples = set r.samples r.head s;
    head = (r.head + 1) % r.capacity;
    count = if ltb r.count r.capacity then r.count + 1 else r.count;
    capacity = r.capacity;
  }

  -- The slot of logical index `i`. The sum is taken in an order in which ℕ does not stop at 0;
  -- `Refine.index_lem` shows that the slot is in the buffer.
  abbrev pub sample_index : Ring D → ℕ → ℕ
  sample_index r i = (r.head + i + r.capacity - r.count) % r.capacity

  abbrev pub sample_at : Ring D → ℕ → Sample D
  sample_at r i = get_or r.samples (sample_index r i) zero_sample

  -- the slot written last, `(head - 1 + capacity) % capacity`
  abbrev pub latest_index : Ring D → ℕ
  latest_index r = (r.head + r.capacity - 1) % r.capacity

  abbrev pub latest : Ring D → Sample D
  latest r = get_or r.samples (latest_index r) zero_sample
