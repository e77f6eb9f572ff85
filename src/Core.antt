-- ===== src/Core.antt =====
-- The kernel core, src/core/.
pub mod Clock
pub mod Pid
pub mod Sched
pub mod Task
pub mod Fork
pub mod Wait
pub mod Life
pub mod Worker
