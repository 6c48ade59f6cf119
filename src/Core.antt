-- ===== src/Core.antt =====
-- The pure domain layer: crates/msgriver-core/src.
pub mod Error
pub mod Math
pub mod Fence
pub mod SafeTime
pub mod State
pub mod Retry
pub mod Generation
pub mod Incarnation
pub mod Mac
pub mod Ring
pub mod Tests
pub mod AllocatorTests
pub mod MacTests
