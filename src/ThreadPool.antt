-- ===== src/ThreadPool.antt =====
-- src/thread_pool.c and src/thread_pool.h: a fixed number of workers on one task queue.
pub mod System
pub mod Lifecycle
pub mod Counts
pub mod CountSteps
pub mod Waits
pub mod WaitSteps
pub mod Safety
pub mod Progress
pub mod Settling
pub mod WaitReturns
pub mod Once
pub mod EarlyReturn
pub mod World
pub mod Release
pub mod Create
pub mod CreateDestroy
pub mod Submit
pub mod Shown
pub mod SubmitSteps
pub mod CallSteps
pub mod WokenSteps
pub mod Runs
mod Examples
mod CallExamples
