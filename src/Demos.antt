-- ===== src/Demos.antt =====
-- The programs under examples/ and benchmarks/ that use the library.
pub mod Partition
pub mod Matrix
pub mod Tally
pub mod Waiting
pub mod Sum
pub mod Benchmark
pub mod Counter
pub mod Exchange
pub mod Ring
pub mod Pile
pub mod Visual
pub mod Section
pub mod Greeting
pub mod Performance
pub mod Menu
pub mod Console
pub mod Hello
mod Examples
