-- ===== src/Storage.antt =====
-- my-telemetry-server/src/metrics_storage: how the metrics of an hour are kept.
pub mod Varint
pub mod Frame
pub mod Entry
pub mod Block
pub mod Cells
pub mod HourFile
pub mod Retention
pub mod Rec
pub mod Pending
pub mod KeyIndex
pub mod Reader
pub mod Runs
pub mod ProcessIndex
