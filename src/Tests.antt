-- ===== src/Tests.antt =====
-- Runs at concrete inputs: each theorem's hypotheses hold somewhere that exercises the code.
pub mod Statuses
pub mod Registrations
pub mod Routing
pub mod Deliveries
pub mod Resilient
pub mod Services
pub mod Sagas
pub mod Envelopes
pub mod Events
pub mod Collector
pub mod Meshed
pub mod Fleet
pub mod Queues
pub mod Requests
