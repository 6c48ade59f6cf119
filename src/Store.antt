-- ===== src/Store.antt =====
-- The durable store: crates/msgriver-store/src/lib.rs with its migrations 3 to 5.
pub mod Validation
pub mod Schema
pub mod Evolution
pub mod Calculus
pub mod Inversion
pub mod Queue
pub mod Inbound
pub mod Trace
pub mod Tests
