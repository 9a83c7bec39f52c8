-- ===== src/Hierarchy/Adding.antt =====
-- Registering a role and adding an inheritance edge keep the closure exact.
mod Roles
mod Edges
pub use Roles.{add_role-IsClosed, add_role-Known}
pub use Edges.{add_edge-IsClosed, add_edge-Edge}
