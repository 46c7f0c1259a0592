-- ===== src/Service/Receive.antt =====
-- The receiver of the tablets' operations in internal/service.
pub mod Persist
pub mod General
pub mod Numbers
pub mod Returns
pub mod Batch
pub mod Keeps
pub mod Persisted
pub mod Ends
pub mod Apart
pub mod Afterwards
pub mod Replay
pub mod CutOff
