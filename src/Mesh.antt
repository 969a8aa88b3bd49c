-- ===== src/Mesh.antt =====
-- mesh/: what a service reports of its failures.
pub mod Issues
pub mod Exporter
pub mod Trace
pub mod Push
pub mod Observing
pub mod Counts
pub mod Delivery
