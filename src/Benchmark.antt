-- ===== src/Benchmark.antt =====
-- The benchmark driver, benchmark/core and benchmark/workloads.
pub mod KeyStore
pub mod Rngs
pub mod Generators
pub mod Sizes
pub mod Properties
pub mod Statistics
pub mod Driver
pub mod KeyData
