-- ===== src/Lib.antt =====
-- go-permissions: a model of the permission engine of this repository, and what is proved of it.
--
-- The program decides whether a user may do something. Grants allow or deny a permission to a user, a
-- group, a team or a role; roles are assigned to principals, inherit one another, and are either the
-- program's own ("builtin.", in a registry in memory) or kept in a store. A Service joins a store, an
-- identity provider and the registry, and evaluates a request in two phases: the direct grants of the
-- user and the user's groups, and then, assignment by assignment, the grants of the assigned role and
-- of all that it inherits. An active deny ends the evaluation.
--
-- Files and code:
--   Types, Types/Principals    types.go; principalKey and parsePrincipalKey of bootstrap_store.go
--   Types/Values               Go's `any` as the code observes it (service.go resolveScopeToken, reflect.DeepEqual)
--   Grants/Matching            grantMatchesRequest, matchesTeamScope (service.go), scopeMatches (bootstrap_store.go)
--   Grants/Fields              grantMatchesFieldPath, fieldPathMatches, isIndexedFieldPath (service.go)
--   Grants/Bindings            resolveGrantBindings, resolveScopeToken (service.go)
--   Grants/Equivalence         grantsEquivalent (service.go), BindingValuesEqual (utilities.go)
--   GrantListing               ListGrants, its filters and cursors (bootstrap_store.go; inmemory/store.go has the same code)
--   Types/Numbers              strconv.Atoi and the sum of two `int`, as ListGrants uses them
--   Hierarchy                  roleInheritance and roleClosure, which bootstrap_store.go and builtin_registry.go both
--                              keep, with one code; Hierarchy/Reach says what the closure is to hold
--   BuiltIn                    builtInRegistry (builtin_registry.go)
--   Bootstrap                  bootstrapStore (bootstrap_store.go): Bootstrap/State, Bootstrap/Assigning, Bootstrap/Granting
--   InMemory, InMemory/Identity  Store (inmemory/store.go), IdentityProvider (inmemory/identity_provider.go)
--   Service/State              Service, its cache of disabled roles (service.go), and of store.go the methods that an
--                              evaluation calls; Service/Stores gives them by the bootstrap store
--   Service/Expansion          expandRolesCached, fetchRoleGrants (service.go)
--   Service/Assignments        resolveRoleAssignmentsForUserGroupsAndTeams and what it calls (service.go)
--   Service/Evaluation         evaluatePermission, HasPermission (service.go)
--   Service/Fields             HasFieldPermission, FilterPermittedFields (service.go)
--   Service/Querying           ExpandRoles, GrantsForOwners, DisabledBuiltInRoles (service.go)
--   Service/Ballot             a specification: every grant casts a vote, without caches and early returns
--   System                     the writing methods of Service (service.go) over its default store;
--                              System/Seeding has the start-up methods, System/Batches EnsureGrantsForOwners,
--                              System/Shortcuts the methods that take plain arguments,
--                              System/Settings the setters; System/Writes gives them all as data
--   CachedStore                Store (cachedstore/store.go) over the methods of PermissionStore (store.go); its methods are in
--                              CachedStore/Methods; CachedStore/OverBootstrap puts it on the bootstrap store
--   JsonStore                  Store (jsonstore/store.go): JsonStore/Files reads and replaces the file, JsonStore/Queries has
--                              the queries, JsonStore/Expanding the walk of ExpandRoles; JsonStore/Identity is
--                              IdentityProvider (jsonstore/identity_provider.go)
--   RoleAssignmentManager      RoleAssignmentManager (role_assignment_manager.go) over System: its changes and their
--                              checks; RoleAssignmentManager/Scopes has the filters, RoleAssignmentManager/Rules the
--                              built-in rules, RoleAssignmentManager/Cleanup the bulk operations
--   Permissions                SystemPermission, TeamPermission, ObjectPermission (utilities.go)
--   PermissionRegistry         PermissionRegistry (registry.go)
--   Base                       helpers; Tests runs the code on small inputs
-- The other files below these hold the proofs about the file that they stand under.
--
-- Modelling. A method takes its state and returns the new one; a write returns an optional error
-- beside it, `none` being nil. Errors are values, one constructor for each message. A Go map is an
-- association list, so a loop over one meets the entries in that list's order, and each statement
-- holds for every order; that no key stands twice in one, as in Go, is a condition where it matters. A
-- Go string is a text of code points. A time is a number of nanoseconds, and the clock does not move
-- during a call. Locks are not modelled: the methods of the stores and of the registries hold their
-- lock throughout, so each is one step, and a call of the Service is taken as one step. Cloning is the
-- identity on values. The context of a call is left out. The store and the identity provider of a
-- Service are records of functions; what they answer does not change in a call. Every loop is
-- structural. Only the printing of a number runs on fuel, one more than the number, which each
-- division by ten makes smaller; the client that follows the cursors of ListGrants runs on fuel too, and
-- one page more than there are grants is enough. The walk of the
-- JSON store has a fuel of the number of given roles and of edges, and it ends within that. An `int` has 64 bits, and the sum of an offset and a
-- limit wraps around.
--
-- A rule of the role assignment manager is a function that reads the service. What the package
-- go-multierror does with errors is a parameter (MultiError), and so is what a pointer to a text is as a
-- value, which the manager puts into proposed assignments. The loops of the manager over a set of roles
-- take the order of insertion; Go leaves the order open, and the statements here do not depend on it.
-- Its rules and its calls of the Service are each one step. In CachedStore, the package go-cache (GoCache)
-- and `json.Marshal` are parameters; what is relied on of them is written out as IsCache and IsMarshal.
-- In JsonStore, the packages os and encoding/json are parameters, with IsFileSystem and IsJson.
--
-- Not modelled: of the Service (service.go) effective permissions, PrincipalsWithPermission, the role
-- listings, reports, the subject function and the constructors, whose results the definitions are given;
-- crud_permissions.go; AllowedTeams (utilities.go), which no Service can answer. The logic of postgres is
-- in SQL. The suite in testingharness and the examples are tests.
pub mod Base
pub mod Types
pub mod Grants
pub mod GrantListing
pub mod Hierarchy
pub mod BuiltIn
pub mod Bootstrap
pub mod InMemory
pub mod Service
pub mod Permissions
pub mod PermissionRegistry
pub mod System
pub mod CachedStore
pub mod JsonStore
pub mod RoleAssignmentManager
mod Tests
