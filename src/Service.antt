-- ===== src/Service.antt =====
-- The permission evaluation of service.go.
pub mod State
pub mod Expansion
pub mod Assignments
pub mod Evaluation
pub mod Ballot
pub mod Caching
pub mod Decision
pub mod Fields
pub mod Stores
pub mod Templates
pub mod Querying
pub mod Agreement
