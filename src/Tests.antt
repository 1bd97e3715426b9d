-- ===== src/Tests.antt =====
-- The inputs that the theorems are tried on, and the theorems at these inputs.
mod Samples
mod Blocks
mod Frames
mod HourFiles
mod Hours
mod Waiting
mod Indexes
mod Traces
mod Writes
