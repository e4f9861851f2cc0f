-- ===== src/Http.antt =====
-- http.c, the HTTP child: the slots that the receiver thread fills, and the requests.
pub mod Slots
pub mod Request
pub mod Ready
pub mod Buffer
pub mod Reply
pub mod Metrics
pub mod Connection
pub mod Serve
pub mod Scraped
pub mod Child
pub mod Listen
