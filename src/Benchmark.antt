-- ===== src/Benchmark.antt =====
-- benchmark/: the scenarios and records of a benchmark run, and its client.
pub mod Records
pub mod Scenario
pub mod Harness
pub mod Request
pub mod Measure
pub mod Slo
pub mod Manifest
pub mod Comparison
pub mod Evaluators
