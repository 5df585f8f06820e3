-- ===== src/Fsm/Control.antt =====
-- The words and the transition table against their documentation.
pub mod Words
pub mod Table
pub mod Step
