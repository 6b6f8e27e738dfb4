-- ===== src/Http/Lifecycle.antt =====
-- The life of a secret through the handlers of src/http.rs: when a creation succeeds, and what a read
-- and a deletion of the created secret return.
pub mod Accepting
pub mod Delivery
pub mod Newest
pub mod RoundTrip
