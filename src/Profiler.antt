-- ===== src/Profiler.antt =====
-- pipeline/stage1c_dynamic_profiler.py: the tracepoints, the classification and the manifest.
pub mod Kernel
pub mod Classify
pub mod Build
pub mod Main
