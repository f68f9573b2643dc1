-- ===== src/CaptureFiles.antt =====
-- capture-agent/src/ring.rs and the writer thread of main.rs: capture files, their rotation and
-- their end.
pub mod Paths
pub mod Files
pub mod Run
pub mod Thread
pub mod Complete
pub mod Rotation
pub mod Stuck
pub mod Shown
pub mod Members
mod Tests
