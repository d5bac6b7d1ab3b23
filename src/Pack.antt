-- ===== src/Pack.antt =====
-- lib/pack.c: pack files, which hold many objects, and their indexes.
pub mod Index
pub mod Chain
mod Tests
