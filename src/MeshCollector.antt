-- ===== src/MeshCollector.antt =====
-- meshd/store.go: what the collector of a mesh keeps, in bounded memory.
pub mod Spans
pub mod State
pub mod SpanMap
pub mod Views
pub mod Merging
pub mod Ingest
pub mod Edges
pub mod Exemplars
