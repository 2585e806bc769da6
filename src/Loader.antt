-- ===== src/Loader.antt =====
-- loader: the parts of a connection beside its receiving and sending loops.
pub mod TimeoutQueue
pub mod Setup
pub mod Run
