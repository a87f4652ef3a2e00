-- ===== src/Bench/Redis.antt =====
-- workloads/redis/archive/utils.py: what the Redis benchmarks share.
pub mod Config
pub mod Csv
pub mod Output
pub mod Summary
pub mod Processes
