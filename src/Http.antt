-- ===== src/Http.antt =====
-- src/http.rs: the API handlers, their checks, and the pages.
pub mod Api
pub mod Ends
pub mod Program
pub mod Threads
pub mod Validate
pub mod Limits
pub mod Turnstile
pub mod Handlers
pub mod Pages
pub mod Lifecycle
pub mod Router
