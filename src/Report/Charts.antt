-- ===== src/Report/Charts.antt =====
-- The graphs of the report, each with its options and its refresh function: graph.js under
-- tools/jmeter/results/*-report/content/js.
pub mod Distributions
pub mod OverTime
pub mod Latencies
pub mod Versus
pub mod PerSecond
pub mod Apart
