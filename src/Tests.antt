-- ===== src/Tests.antt =====
-- Runs on concrete data, and the properties applied to it.
mod Shelf
mod Keys
mod Iterators
mod Objects
mod Records
mod Interface
mod Locks
mod Singletons
mod Insertion
mod Changes
mod Benchmark
mod KeyData
mod Histories
