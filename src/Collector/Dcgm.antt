-- ===== src/Collector/Dcgm.antt =====
-- dcgm.c: dcgm_poll. DCGM is no part of the program: what GetLatestValues fills in is an argument.
pub mod Overlay
use gpu_health_index.Prelude.{
  ℕ, ◌-◌, ◌^◌, Bool, not, ◌&&◌, Option, none, some, List, [], ◌∷◌, ◌==◌, if◌then◌else◌,
}
use gpu_health_index.Prelude.Int.{ℤ, pos, negsuc, ltb_ℤ, leb_ℤ, to_u64}
use gpu_health_index.Double.{Double}
use gpu_health_index.Types.{State}
use gpu_health_index.Collector.DcgmState.{
  DcgmFields, unavailable_u64, unavailable_u32, unavailable_dbl, apply_dcgm_state,
}

-- the fields that are watched
pub data FieldId : Type 0 where
  power_usage total_energy mem_copy_util power_violation thermal_violation : FieldId
  nvlink_crc nvlink_replay nvlink_recovery xid_errors last_xid pcie_replay : FieldId
  row_remap_failure : FieldId

-- dcgm_field_value_t, as far as it is read: whether the status is DCGM_ST_OK and the type
-- DCGM_FT_INT64, and the two readings of the union
pub record FieldReading (D : Type 0) : Type 0 where
  pub status_ok : Bool
  pub is_int64 : Bool
  pub i64 : ℤ
  pub dbl : D

-- DCGM_INT64_BLANK
abbrev pub int64_blank : ℤ
int64_blank = pos 0x7FFFFFFFFFFFFFF0

-- POLL_FIELDS
abbrev pub poll_fields : List FieldId
poll_fields =
    FieldId.power_usage ∷ FieldId.total_energy ∷ FieldId.mem_copy_util ∷ FieldId.power_violation
    ∷ FieldId.thermal_violation ∷ FieldId.nvlink_crc ∷ FieldId.nvlink_replay
    ∷ FieldId.nvlink_recovery ∷ FieldId.xid_errors ∷ FieldId.last_xid ∷ FieldId.pcie_replay
    ∷ FieldId.row_remap_failure ∷ []

-- an int64 field that is no blank, converted to uint64_t
abbrev pub counter : Bool → ℤ → ℕ → ℕ
counter status_ok i64 old = if status_ok && ltb_ℤ i64 int64_blank then to_u64 i64 else old

-- a field that must fit in uint32_t
abbrev pub code32 : Bool → ℤ → ℕ → ℕ
code32 status_ok i64 old =
    if status_ok && leb_ℤ (pos 0) i64 && ltb_ℤ i64 int64_blank
    then (if leb_ℤ i64 (pos (2 ^ 32 - 1)) then to_u64 i64 else unavailable_u32)
    else old

module _ {D : Type 0} ⦃d : Double D⦄ where
  abbrev pub sentinels : DcgmFields D
  sentinels = record {
    power_w = unavailable_dbl D;
    energy_j = unavailable_dbl D;
    mem_bw_util_pct = unavailable_dbl D;
    power_violation_us = unavailable_u64;
    thermal_violation_us = unavailable_u64;
    nvlink_replay = unavailable_u64;
    nvlink_recovery = unavailable_u64;
    nvlink_crc = unavailable_u64;
    xid_count = unavailable_u64;
    xid_last_code = unavailable_u32;
    pcie_replay = unavailable_u64;
    row_remap_failures = unavailable_u32;
  }

  -- watts: an int64 field is in mW, a double field in W
  abbrev pub power_watts : FieldReading D → D → D
  power_watts v old =
      if v.is_int64
      then (if ltb_ℤ v.i64 int64_blank then d.div (d.of_int v.i64) (d.lit 1000 0) else old)
      else if d.lt v.dbl (d.of_nat (2 ^ 47))
      then v.dbl
      else old

  -- One turn of the loop. The test of the status, which the loop makes first, stands in each case.
  unfoldable pub store_field : FieldId → FieldReading D → DcgmFields D → DcgmFields D
  store_field FieldId.power_usage v out = record out {
    power_w = if v.status_ok then power_watts v out.power_w else out.power_w;
  }
  store_field FieldId.total_energy v out = record out {
    energy_j =
        if v.status_ok && ltb_ℤ v.i64 int64_blank
        then d.div (d.of_int v.i64) (d.lit 1000 0)
        else out.energy_j;
  }
  store_field FieldId.mem_copy_util v out = record out {
    mem_bw_util_pct =
        if v.status_ok && ltb_ℤ v.i64 int64_blank then d.of_int v.i64 else out.mem_bw_util_pct;
  }
  store_field FieldId.power_violation v out = record out {
    power_violation_us = counter v.status_ok v.i64 out.power_violation_us;
  }
  store_field FieldId.thermal_violation v out = record out {
    thermal_violation_us = counter v.status_ok v.i64 out.thermal_violation_us;
  }
  store_field FieldId.nvlink_crc v out = record out {
    nvlink_crc = counter v.status_ok v.i64 out.nvlink_crc;
  }
  store_field FieldId.nvlink_replay v out = record out {
    nvlink_replay = counter v.status_ok v.i64 out.nvlink_replay;
  }
  store_field FieldId.nvlink_recovery v out = record out {
    nvlink_recovery = counter v.status_ok v.i64 out.nvlink_recovery;
  }
  store_field FieldId.xid_errors v out = record out {
    xid_count = counter v.status_ok v.i64 out.xid_count;
  }
  store_field FieldId.last_xid v out = record out {
    xid_last_code = code32 v.status_ok v.i64 out.xid_last_code;
  }
  store_field FieldId.pcie_replay v out = record out {
    pcie_replay = counter v.status_ok v.i64 out.pcie_replay;
  }
  store_field FieldId.row_remap_failure v out = record out {
    row_remap_failures = code32 v.status_ok v.i64 out.row_remap_failures;
  }

  unfoldable pub store_fields :
      List FieldId → (FieldId → FieldReading D) → DcgmFields D → DcgmFields D
  unfolding store_field
  store_fields [] values out = out
  store_fields (id ∷ ids) values out = store_fields ids values (store_field id (values id) out)

  -- `none` where GetLatestValues fails
  unfoldable pub dcgm_poll : Option (FieldId → FieldReading D) → Option (DcgmFields D)
  unfolding store_fields
  dcgm_poll none = none
  dcgm_poll (some values) = some (store_fields poll_fields values sentinels)
