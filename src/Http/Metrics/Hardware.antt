-- ===== src/Http/Metrics/Hardware.antt =====
-- http.c, the families of render_metrics: memory, interconnects and clocks.
use gpu_health_index.Prelude.{List, [], ◌∷◌, if◌then◌else◌}
use gpu_health_index.Double.{Double, is_nan}
use gpu_health_index.Http.Metrics.Family.{
  Family, gauge, counter, word, integer, unsigned, fixed, not_a_number, ratio,
}

module _ {D : Type 0} ⦃d : Double D⦄ where
  unfoldable pub memory_families : List (Family D)
  memory_families =
      gauge "gpu_memory_used_bytes" "GPU memory currently in use (bytes)"
        (λ s. unsigned s.mem_used_bytes)
      ∷ gauge "gpu_memory_free_bytes" "GPU memory free (bytes)" (λ s. unsigned s.mem_free_bytes)
      ∷ gauge "gpu_memory_total_bytes" "Total GPU memory capacity (bytes)"
          (λ s. unsigned s.mem_total_bytes)
      ∷ gauge "gpu_memory_bandwidth_utilization_ratio"
          "Memory bandwidth utilization (0.0-1.0); NaN if DCGM unavailable"
          (λ s. if is_nan s.mem_bw_util_pct then not_a_number else ratio s.mem_bw_util_pct)
      ∷ counter "gpu_ecc_sbe_volatile_total"
          "ECC single-bit errors (volatile counter; resets on driver reload)"
          (λ s. unsigned s.ecc_sbe_volatile)
      ∷ counter "gpu_ecc_dbe_volatile_total"
          "ECC double-bit errors (volatile counter; resets on driver reload)"
          (λ s. unsigned s.ecc_dbe_volatile)
      ∷ counter "gpu_ecc_sbe_aggregate_total"
          "ECC single-bit errors (aggregate lifetime counter; does not reset on driver reload)"
          (λ s. unsigned s.ecc_sbe_aggregate)
      ∷ counter "gpu_ecc_dbe_aggregate_total"
          "ECC double-bit errors (aggregate lifetime counter; does not reset on driver reload)"
          (λ s. unsigned s.ecc_dbe_aggregate)
      ∷ gauge "gpu_retired_pages_sbe" "GPU memory pages retired due to single-bit errors"
          (λ s. word s.retired_pages_sbe)
      ∷ gauge "gpu_retired_pages_dbe" "GPU memory pages retired due to double-bit errors"
          (λ s. word s.retired_pages_dbe)
      ∷ gauge "gpu_row_remap_failures"
          "Count of row remapping failures; any non-zero value indicates irreversible damage"
          (λ s. word s.row_remap_failures)
      ∷ gauge "gpu_pending_row_remap"
          "1 if a row remapping operation is pending (requires reboot to take effect)"
          (λ s. integer s.pending_row_remap)
      ∷ []

  unfoldable pub interconnects_families : List (Family D)
  interconnects_families =
      gauge "gpu_pcie_link_gen" "Current PCIe link generation" (λ s. integer s.pcie_link_gen)
      ∷ gauge "gpu_pcie_link_width" "Current PCIe link width (number of lanes)"
          (λ s. integer s.pcie_link_width)
      ∷ counter "gpu_pcie_replay_total" "PCIe replay counter (total)"
          (λ s. unsigned s.pcie_replay_count)
      ∷ counter "gpu_nvlink_replay_total" "NVLink replay error counter (total)"
          (λ s. unsigned s.nvlink_replay_count)
      ∷ counter "gpu_nvlink_recovery_total" "NVLink recovery error counter (total)"
          (λ s. unsigned s.nvlink_recovery_count)
      ∷ counter "gpu_nvlink_crc_total" "NVLink CRC flit error counter (total)"
          (λ s. unsigned s.nvlink_crc_count)
      ∷ counter "gpu_xid_errors_total" "XID error counter (total)" (λ s. unsigned s.xid_count)
      ∷ gauge "gpu_xid_last_code" "Last XID error code observed (0 if none)"
          (λ s. word s.xid_last_code)
      ∷ []

  unfoldable pub compute_families : List (Family D)
  compute_families =
      gauge "gpu_sm_clock_mhz" "Current SM (shader) clock frequency (MHz)"
        (λ s. fixed 1 s.sm_clock_mhz)
      ∷ gauge "gpu_mem_clock_mhz" "Current memory clock frequency (MHz)"
          (λ s. fixed 1 s.mem_clock_mhz)
      ∷ gauge "gpu_utilization_gpu_ratio" "GPU compute utilization (0.0-1.0)"
          (λ s. ratio (d.of_int s.util_gpu_pct))
      ∷ gauge "gpu_utilization_memory_ratio" "GPU memory controller utilization (0.0-1.0)"
          (λ s. ratio (d.of_int s.util_mem_pct))
      ∷ gauge "gpu_pstate" "Current GPU performance state (0=P0=maximum performance, 15=minimum)"
          (λ s. integer s.pstate)
      ∷ []
