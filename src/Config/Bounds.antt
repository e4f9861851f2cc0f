-- ===== src/Config/Bounds.antt =====
-- The ranges of the configuration that cfg_table promises.
use gpu_health_index.Prelude.{◌≤◌, ◌<◌, length}
use gpu_health_index.Double.{Double, ◌≼◌}
use gpu_health_index.Config.{Config}
use gpu_health_index.Config.Fields.{IntField, DblField, StrField}
use gpu_health_index.Config.Table.{int_min, int_max, str_maxlen, dbl_min, dbl_max}

module _ {D : Type 0} ⦃d : Double D⦄ where
  abbrev pub IntsInRange : Config D → Type 0
  IntsInRange cfg = (f : IntField) → (int_min f ≤ cfg.int f) × (cfg.int f ≤ int_max f)

  -- the strings leave room for their NUL
  abbrev pub StringsFit : Config D → Type 0
  StringsFit cfg = (f : StrField) → length (cfg.str f) < str_maxlen f

  -- every double is a number between the bounds of its row
  abbrev pub DoublesInRange : Config D → Type 0
  DoublesInRange cfg = (f : DblField) → (dbl_min f ≼ cfg.dbl f) × (cfg.dbl f ≼ dbl_max f)
