-- ===== src/Quality.antt =====
-- The quality loop of the render jobs (cast-server/cast_server/render_common).
pub mod Float
pub mod Verdict
pub mod Attempt
pub mod Loop
pub mod Sentinel
pub mod Exploration
mod SentinelTests
mod Tests
