-- ===== src/Fsm/Safety.antt =====
-- No pointer of the machine is used when it dangles: what the pointers point to in each state.
pub mod Facts
pub mod Common
pub mod Basic
pub mod Tag
pub mod Machine
pub mod Fire
pub mod Run
