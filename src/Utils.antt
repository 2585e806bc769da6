-- ===== src/Utils.antt =====
-- utils: the containers that other parts share.
pub mod Lru
pub mod SlicePool
