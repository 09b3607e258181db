-- ===== src/Ooo.antt =====
-- The structures of the out-of-order core: the register alias table, the reorder buffer and the
-- scheduling queue.
pub mod Inst
pub mod Classify
pub mod Core
pub mod Rat
pub mod Rob
pub mod SchedQ
