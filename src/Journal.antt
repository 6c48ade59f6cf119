-- ===== src/Journal.antt =====
-- The byte formats of the control journal (crates/msgriver/src/initialization_key_pair): a module
-- for each of them, and the reading of wires that they share.
pub mod Wire
pub mod Words
pub mod ClockBody
pub mod Labels
pub mod Record
pub mod KeyEvent
pub mod Authority
pub mod RingManifest
pub mod Command
pub mod Header
pub mod Pointer
pub mod Profile
pub mod Tests
