-- ===== src/Traps.antt =====
-- System calls of flat/os/traps.c.
pub mod Create
pub mod Clock
pub mod Timer
pub mod Printf
pub mod FileCalls
