-- ===== src/Collector/Dcgm/Overlay.antt =====
-- dcgm.c and collector.c: what one poll of DCGM changes in the state.
use gpu_health_index.Prelude.{
  ℕ, ◌-◌, ◌^◌, ◌≡◌, subst, not, ◌&&◌, Option, none, some, ◌==◌, if◌then◌else◌, arith,
}
use gpu_health_index.Prelude.Int.{pos, ltb_ℤ, leb_ℤ, to_u64}
use gpu_health_index.Double.{Double}
use gpu_health_index.Types.{State}
use gpu_health_index.Collector.DcgmState.{
  DcgmFields, unavailable_u64, unavailable_u32, apply_dcgm_state,
}
use gpu_health_index.Collector.Dcgm.{
  FieldId, FieldReading, int64_blank, poll_fields, sentinels, store_field, store_fields, dcgm_poll,
  counter, code32,
}

-- A number that the device gives for a field, as the description of the fields has it: none with an
-- error, none for a blank, and none where it would be the sentinel.
abbrev pub given : {D : Type 0} → FieldReading D → Option ℕ
given v =
    if v.status_ok && ltb_ℤ v.i64 int64_blank && not (to_u64 v.i64 == unavailable_u64)
    then some (to_u64 v.i64)
    else none

-- and for a field of 32 bits
abbrev pub given32 : {D : Type 0} → FieldReading D → Option ℕ
given32 v =
    if v.status_ok && leb_ℤ (pos 0) v.i64 && ltb_ℤ v.i64 (pos (2 ^ 32 - 1))
    then some (to_u64 v.i64)
    else none

abbrev pub or_old : ℕ → Option ℕ → ℕ
or_old old none = old
or_old old (some n) = n

counter-overlay :
    {D : Type 0} (v : FieldReading D) (old : ℕ)
    → (let new = counter v.status_ok v.i64 unavailable_u64 in
        if not (new == unavailable_u64) then new else old)
      ≡ or_old old (given v)
counter-overlay v old = ground arith

code32-overlay :
    {D : Type 0} (v : FieldReading D) (old : ℕ)
    → (let new = code32 v.status_ok v.i64 unavailable_u32 in
        if not (new == unavailable_u32) then new else old)
      ≡ or_old old (given32 v)
code32-overlay v old = ground arith

module _ {D : Type 0} ⦃d : Double D⦄ where
  -- The counters and codes of a state after an update: each is what the device gave, or as before.
  pub record Overlaid (values : FieldId → FieldReading D) (old new : State D) : Type 0 where
    pub power_violation :
        new.power_violation_us
        ≡ or_old old.power_violation_us (given (values FieldId.power_violation))
    pub thermal_violation :
        new.thermal_violation_us
        ≡ or_old old.thermal_violation_us (given (values FieldId.thermal_violation))
    pub nvlink_replay :
        new.nvlink_replay_count
        ≡ or_old old.nvlink_replay_count (given (values FieldId.nvlink_replay))
    pub nvlink_recovery :
        new.nvlink_recovery_count
        ≡ or_old old.nvlink_recovery_count (given (values FieldId.nvlink_recovery))
    pub nvlink_crc :
        new.nvlink_crc_count ≡ or_old old.nvlink_crc_count (given (values FieldId.nvlink_crc))
    pub xid : new.xid_count ≡ or_old old.xid_count (given (values FieldId.xid_errors))
    pub last_xid : new.xid_last_code ≡ or_old old.xid_last_code (given32 (values FieldId.last_xid))
    pub pcie_replay :
        new.pcie_replay_count ≡ or_old old.pcie_replay_count (given (values FieldId.pcie_replay))
    pub row_remap :
        new.row_remap_failures
        ≡ or_old old.row_remap_failures (given32 (values FieldId.row_remap_failure))

  overlay :
      (values : FieldId → FieldReading D) (old : State D)
      → Overlaid values old (apply_dcgm_state old (store_fields poll_fields values sentinels))
  unfolding apply_dcgm_state store_fields store_field
  overlay values old = record {
    power_violation = counter-overlay (values FieldId.power_violation) old.power_violation_us;
    thermal_violation = counter-overlay (values FieldId.thermal_violation) old.thermal_violation_us;
    nvlink_replay = counter-overlay (values FieldId.nvlink_replay) old.nvlink_replay_count;
    nvlink_recovery = counter-overlay (values FieldId.nvlink_recovery) old.nvlink_recovery_count;
    nvlink_crc = counter-overlay (values FieldId.nvlink_crc) old.nvlink_crc_count;
    xid = counter-overlay (values FieldId.xid_errors) old.xid_count;
    last_xid = code32-overlay (values FieldId.last_xid) old.xid_last_code;
    pcie_replay = counter-overlay (values FieldId.pcie_replay) old.pcie_replay_count;
    row_remap = code32-overlay (values FieldId.row_remap_failure) old.row_remap_failures;
  }

  -- After a poll of DCGM that succeeds, each counter and each code that apply_dcgm_state sets is what
  -- the device gave for its own field, converted to its unsigned type, or, where the device gave an
  -- error, a blank, or a value that reads as the sentinel or does not fit, what stood there before.
  pub dcgm_poll-Overlaid :
      (values : FieldId → FieldReading D) (old : State D) (f : DcgmFields D)
      → dcgm_poll (some values) ≡ some f
      → Overlaid values old (apply_dcgm_state old f)
  unfolding dcgm_poll
  dcgm_poll-Overlaid values old f h =
      subst (λ f. Overlaid values old (apply_dcgm_state old f)) (some_eq h) (overlay values old)
    where
      some_eq :
          some (store_fields poll_fields values sentinels) ≡ some f
          → store_fields poll_fields values sentinels ≡ f
      some_eq h = cc
