-- ===== src/Report.antt =====
-- The report of the load tests: tools/jmeter/results/*-report/content/js.
pub mod Format
pub mod Series
pub mod Options
pub mod Page
pub mod Legend
pub mod Zoom
pub mod Charts
pub mod Events
pub mod Table
pub mod Export
