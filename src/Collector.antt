-- ===== src/Collector.antt =====
-- collector.c: the context of one GPU, the NVML poll, the DCGM fields, and the poll loop.
pub mod Context
pub mod Nvml
pub mod DcgmState
pub mod Dcgm
pub mod Poll
