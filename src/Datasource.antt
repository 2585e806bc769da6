-- ===== src/Datasource.antt =====
-- datasource: requests turned into HTTP/2 frames.
pub mod Middleware
pub mod Request
