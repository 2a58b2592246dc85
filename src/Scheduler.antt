-- ===== src/Scheduler.antt =====
-- src/scheduler.c and src/scheduler.h: the bounded FIFO task queue.
pub mod Store
pub mod Queue
pub mod Chain
pub mod Fifo
pub mod Commands
pub mod Append
pub mod Push
pub mod Pop
pub mod Lifecycle
pub mod Monitor
mod Examples
