-- ===== src/Report.antt =====
-- report: what framer reports of the responses.
pub mod Phout
pub mod Simple
pub mod Supersimple
