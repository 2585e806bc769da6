-- ===== src/Reciever.antt =====
-- loader/reciever: the incremental HTTP/2 framer, the loop that feeds frames to the processors, and
-- the processors themselves.
pub mod Framer
pub mod Loop
pub mod World
pub mod Processors
pub mod Headers
pub mod Dispatch
pub mod Buffers
