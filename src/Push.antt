-- ===== src/Push.antt =====
-- The package `push`: webhook configurations, their validation and delivery.
pub mod Store
pub mod Validation
pub mod Lane
pub mod Delivery
pub mod Service
pub mod Handlers
pub mod Trigger
