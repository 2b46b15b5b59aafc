-- ===== src/Store.antt =====
-- The database that the services share: its rows, and the calls that read and write them.
mod Rows
mod Calls
pub use Rows.*
pub use Calls.*
