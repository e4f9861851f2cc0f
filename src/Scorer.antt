-- ===== src/Scorer.antt =====
-- scorer.c, in four parts: the ring statistics, the completeness gate, the penalties and score_gpu.
pub mod Stats
pub mod Gate
pub mod Penalties
pub mod Score
