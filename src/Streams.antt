-- ===== src/Streams.antt =====
-- loader/streams and loader/flowcontrol: the store of open streams, the limiter of their number, and
-- the flow-control window.
pub mod Store
pub mod FlowControl
pub mod Limiter
pub mod Pool
