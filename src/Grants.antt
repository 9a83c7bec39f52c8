-- ===== src/Grants.antt =====
-- The pure functions on grants of service.go: matching a request, resolving bindings, comparing.
pub mod Matching
pub mod Fields
pub mod Bindings
pub mod Equivalence
