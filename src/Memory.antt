-- ===== src/Memory.antt =====
-- src/memory.c and src/memory.h: thread stacks with a guard page, and pools of equal objects.
pub mod Stack
pub mod StackLaws
pub mod Pool
pub mod PoolState
pub mod FreeList
pub mod PoolCreate
pub mod PoolDestroy
pub mod Clients
pub mod Exclusive
pub mod Unordered
mod Examples
mod ClientExamples
