-- ===== src/Bootstrap.antt =====
-- bootstrapStore (bootstrap_store.go), the default PermissionStore. A method takes the time where the
-- Go method calls `time.Now`; a write returns the new state and its error. Locks are not modelled: a
-- method is one step. Roles, grants and assignments are values, so cloning them is the identity.
mod State
mod Assigning
mod Granting
unfoldable pub use State.*
unfoldable pub use Assigning.*
unfoldable pub use Granting.*
pub mod Assignments
pub mod Undoing
pub mod Losing
pub mod WhoHas
pub mod Grants
pub mod Roles
