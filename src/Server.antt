-- ===== src/Server.antt =====
-- The server around the storage: my-telemetry-server/src/mappers, flows, to_write_queue.
pub mod Metric
pub mod Links
pub mod Queue
