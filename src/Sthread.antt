-- ===== src/Sthread.antt =====
-- src/sthread.c and include/sthread.h: the public functions.
pub mod Objects
pub mod Primitives
pub mod Threads
pub mod Pools
pub mod ObjectLaws
pub mod DestroyLaws
pub mod SemLaws
pub mod ThreadLaws
pub mod PoolLaws
mod Examples
