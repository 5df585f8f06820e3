-- ===== src/Fsm.antt =====
-- The event parser's state machine, class FzFSM: src/parser/FzFSM.h and src/parser/FzFSM.cpp.
pub mod Word
pub mod State
pub mod Trigger
pub mod Block
pub mod Check
pub mod Basic
pub mod Tag
pub mod Process
pub mod Control
pub mod Safety
pub mod Progress
pub mod Checks
mod Tests
