-- ===== src/StateKeys.antt =====
-- The keys of the state MACs (crates/msgriver/src/state_mac_key_*.rs and
-- initialization_key_pair/state_mac_key_file.rs): the file of a key, its path, the rows that list the
-- keys, and their validation.
pub mod File
pub mod Path
pub mod Rows
pub mod HighWater
pub mod Manifest
pub mod Snapshot
pub mod Tests
