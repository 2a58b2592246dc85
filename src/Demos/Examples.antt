-- ===== src/Demos/Examples.antt =====
-- Concrete runs of the programs under examples/ and benchmarks/.
mod Products
mod Exchanges
mod Counters
mod Pools
mod Programs
