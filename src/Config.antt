-- ===== src/Config.antt =====
-- gpu_config_t, and config.c which fills it. A field is addressed by name where the C code uses its
-- offset; an `int` field is a natural number, since every row of the table has a lower bound >= 0.
pub mod Fields
pub mod Table
pub mod Bounds
pub mod Load
use gpu_health_index.Prelude.{ℕ, List, ◌≡◌}
use Fields.{IntField, DblField, StrField}

-- gpu_config_t
pub record Config (D : Type 0) : Type 0 where
  pub int : IntField → ℕ
  pub dbl : DblField → D
  pub str : StrField → List ℕ
