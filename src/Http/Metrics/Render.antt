-- ===== src/Http/Metrics/Render.antt =====
-- http.c: copy_slots and render_metrics, as the texts that are passed to bprintf, in their order.
use gpu_health_index.Prelude.{
  ℕ, ◌*◌, Bool, not, Option, none, some, List, [], ◌∷◌, ◌++◌, if◌then◌else◌,
}
use gpu_health_index.Prelude.Int.{pos}
use gpu_health_index.Double.{Double}
use gpu_health_index.Types.{Snapshot}
use gpu_health_index.Config.Table.{bytes}
use gpu_health_index.Http.Slots.{Slot, Receiver}
use gpu_health_index.Http.Buffer.{bprintf_all, concat}
use gpu_health_index.Http.Reply.{decimal}
use gpu_health_index.Http.Metrics.Family.{
  Printf, Value, Family, integer, gauge, print, signed_decimal, header_text, sample_line,
}
use gpu_health_index.Http.Metrics.Health.{
  identity_families, score_families, ring_statistics_families, thermal_families, power_families,
}
use gpu_health_index.Http.Metrics.Hardware.{
  memory_families, interconnects_families, compute_families,
}
use gpu_health_index.Http.Metrics.Operation.{files_families, operation_families}

abbrev pub exporter_line : List ℕ
exporter_line = bytes "gpu_health_exporter_info{version=\"0.1.0\"} 1"

module _ {D : Type 0} where
  -- The copy of the slots, taken under the mutex; `none` where malloc fails.
  unfoldable pub copy_slots : Bool → Receiver D → Option (List (Slot D))
  copy_slots malloc_ok st = if malloc_ok then some st.slots else none

  -- the value is never read: these two families have no line that a macro prints
  abbrev pub exporter_info : Family D
  exporter_info =
      gauge "gpu_health_exporter_info" "GPU health exporter build information"
        (λ s. integer (pos 1))

  abbrev pub gpu_info : Family D
  gpu_info =
      gauge "gpu_info" "GPU identity and static properties; join on serial label for metadata"
        (λ s. integer (pos 1))

  -- what follows the serial of a GPU in its line of gpu_info
  unfoldable pub info_parts : Snapshot D → List (List ℕ)
  unfolding signed_decimal decimal
  info_parts s =
      bytes "\",uuid=\""
      ∷ s.uuid
      ∷ bytes "\",model=\""
      ∷ s.gpu_model
      ∷ bytes "\",driver=\""
      ∷ s.driver_version
      ∷ bytes "\",index=\""
      ∷ decimal s.gpu_index
      ∷ bytes "\",pcie_gen_max=\""
      ∷ signed_decimal s.pcie_link_gen_max
      ∷ bytes "\",pcie_width_max=\""
      ∷ signed_decimal s.pcie_link_width_max
      ∷ bytes "\"} 1"
      ∷ []

  unfoldable pub info_rest : Snapshot D → List ℕ
  unfolding info_parts
  info_rest s = concat (info_parts s)

  unfoldable pub info_line : Snapshot D → List ℕ
  unfolding info_rest
  info_line s = bytes "gpu_info{serial=\"" ++ (s.serial ++ info_rest s)

  unfoldable pub info_texts : List (Slot D) → List (List ℕ)
  unfolding info_line
  info_texts [] = []
  info_texts (s ∷ ss) =
      let rest = info_texts ss in
      if not s.received then rest else (info_line s.snap ++ 10 ∷ []) ∷ rest

module _ {D : Type 0} (p : Printf D) where
  -- the line of one GPU
  unfoldable pub value_text :
      Family D → Snapshot D → Option (Value D) → List (List ℕ) → List (List ℕ)
  unfolding print sample_line
  value_text f s none rest = rest
  value_text f s (some v) rest = (sample_line f.name s.serial (print p v) ++ 10 ∷ []) ∷ rest

  unfoldable pub sample_texts : Family D → List (Slot D) → List (List ℕ)
  unfolding value_text
  sample_texts f [] = []
  sample_texts f (s ∷ ss) =
      let rest = sample_texts f ss in
      if not s.received then rest else value_text f s.snap (f.value s.snap) rest

  unfoldable pub family_texts : List (Family D) → List (Slot D) → List (List ℕ)
  unfolding sample_texts header_text
  family_texts [] slots = []
  family_texts (f ∷ fs) slots = header_text f ∷ (sample_texts f slots ++ family_texts fs slots)

module _ {D : Type 0} ⦃d : Double D⦄ where
  -- the families after gpu_info, in their order
  unfoldable pub families : List (Family D)
  unfolding identity_families score_families ring_statistics_families thermal_families
      power_families memory_families interconnects_families compute_families files_families
      operation_families
  families =
      identity_families
      ++ (score_families
          ++ (ring_statistics_families
              ++ (thermal_families
                  ++ (power_families
                      ++ (memory_families
                          ++ (interconnects_families
                              ++ (compute_families ++ (files_families ++ operation_families))))))))

  unfoldable pub metrics_texts : Printf D → List (Slot D) → List (List ℕ)
  unfolding info_texts family_texts header_text families
  metrics_texts p slots =
      header_text (exporter_info {D = D})
      ∷ ((exporter_line ++ 10 ∷ [])
          ∷ (header_text (gpu_info {D = D}) ∷ (info_texts slots ++ family_texts p families slots)))

  -- The text in the buffer of `size` bytes; METRICS_BUF_SIZE is metrics_buf_size.
  unfoldable pub render_metrics : Printf D → ℕ → Option (List (Slot D)) → List ℕ
  unfolding metrics_texts bprintf_all
  render_metrics p size none = bprintf_all size [] (bytes "# ERROR: allocation failed\n" ∷ [])
  render_metrics p size (some slots) = bprintf_all size [] (metrics_texts p slots)

abbrev pub metrics_buf_size : ℕ
metrics_buf_size = 256 * 1024
