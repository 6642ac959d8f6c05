-- ===== src/Worker.antt =====
-- The package `worker`: the execution context that a handler is given, and the adapter that runs
-- handlers for the broker's operations.
pub mod Context
pub mod Adapter
