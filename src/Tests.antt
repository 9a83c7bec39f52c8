-- ===== src/Tests.antt =====
-- Runs of the code on small inputs, and the theorems at such inputs.
mod Data
mod Program
mod Evaluation
mod Registries
mod Stores
mod Systems
mod Listings
mod Managers
mod Caches
mod Files
