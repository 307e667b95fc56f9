-- ===== src/Tests.antt =====
-- Runs of the definitions at concrete data, and the theorems at inputs that meet their hypotheses.
pub mod Files
pub mod Peers
pub mod Servers
pub mod Disk
pub mod Programs
pub mod Listing
pub mod Helpers
pub mod Muxes
pub mod Systems
pub mod Serving
