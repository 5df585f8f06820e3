-- ===== src/Fsm/Progress.antt =====
-- Whether the loop over an event's words ends.
pub mod Hang
pub mod Facts
pub mod Tag
pub mod Value
pub mod Still
pub mod Run
