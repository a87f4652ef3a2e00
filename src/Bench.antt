-- ===== src/Bench.antt =====
-- The benchmarks that compare a scheduler with the kernel's own one: workloads/db_sim/db_sim_bench.py
-- and workloads/rocksdb_dbbench/rocksdb_sched_bench.py.
pub mod Io
pub mod Os
pub mod Lifecycle
pub mod DbSim
pub mod Rocksdb
pub mod Redis
