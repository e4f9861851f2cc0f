-- ===== src/Tests.antt =====
-- Runs of the program on concrete inputs, with fixed-point decimals for `double`.
mod Data
mod Scoring
mod Polling
mod Loading
mod Serving
mod Files
pub mod Metrics
pub mod Probe
pub mod Process
pub mod Child
