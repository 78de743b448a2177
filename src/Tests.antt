-- ===== src/Tests.antt =====
-- Runs of the definitions at concrete inputs.
pub mod Disk
pub mod Wire
pub mod Files
pub mod Sessions
pub mod Arrivals
pub mod Startup
pub mod Typed
pub mod Systems
pub mod Uploads
pub mod Returns
pub mod Refusals
pub mod Programs
