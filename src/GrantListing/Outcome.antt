-- ===== src/GrantListing/Outcome.antt =====
-- When ListGrants panics, and that it answers otherwise.
use go_permissions.Base.{ℕ, ◌≡◌, String, some}
use go_permissions.Types.{negsuc}
use go_permissions.Types.Numbers.{atoi}

-- the cursor reads as a negative number
abbrev pub IsNegative : String → Type 0
IsNegative cursor = (k : ℕ) × (atoi cursor ≡ some (negsuc k))
