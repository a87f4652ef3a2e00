-- ===== src/Tests.antt =====
-- The development at concrete inputs, by the part that they exercise.
mod Data
mod Verifying
mod Profiling
mod Generating
mod Dispatching
mod Preempting
mod Evaluating
mod Validating
mod Benching
mod Summarizing
mod Discovering
