-- ===== src/History.antt =====
-- The history snapshot: conformance/check_history_snapshot.py, which checks the vectors, and
-- scripts/gen_history_snapshot_vectors.py, which writes them.
pub mod Stream
pub mod Media
pub mod Phase
pub mod Sealed
pub mod Keys
pub mod Hello
pub mod Records
pub mod Rows
pub mod Written
mod Ends
mod Tests
