-- ===== src/Examples.antt =====
-- Concrete inputs, and the theorems at them.
pub mod Data
mod StoreRuns
mod Handlers
mod Rules
mod Lifecycle
mod Rendering
mod Routing
mod Threads
