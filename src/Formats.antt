-- ===== src/Formats.antt =====
-- formats: the request files that framer reads, writes and converts.
pub mod BinaryEncoding
pub mod BinaryIo
pub mod Converter
pub mod Escape
pub mod MetaJson
