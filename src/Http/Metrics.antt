-- ===== src/Http/Metrics.antt =====
-- http.c: render_metrics, the text of /metrics.
pub mod Family
pub mod Health
pub mod Hardware
pub mod Operation
pub mod Render
pub mod Scrape
pub mod Lines
pub mod Whole
