-- ===== src/Tests/Program.antt =====
-- All that the tests compute through.
use go_permissions.Base
use go_permissions.Bootstrap
use go_permissions.BuiltIn
use go_permissions.CachedStore
use go_permissions.GrantListing
use go_permissions.Grants
use go_permissions.Hierarchy
use go_permissions.InMemory
use go_permissions.JsonStore
use go_permissions.PermissionRegistry
use go_permissions.Permissions
use go_permissions.RoleAssignmentManager
use go_permissions.Service
use go_permissions.System
use go_permissions.Types

unfoldable pub program : Unit {0}
unfolding Base.any Base.filter Base.contains_string Base.Maps.get Base.Maps.put Base.Maps.delete
    Base.Maps.keys Base.Sets.set_add Base.Sets.add_all Base.Sets.set_delete Base.Sets.get_set
    Base.Sort.sort_by Base.Sort.sort_strings Base.Text.trim_space Base.Text.join Base.Text.split
    Bootstrap.assigned Bootstrap.role_assignments_for_principal Bootstrap.hits_of
    Bootstrap.role_assignments_for_role_id Bootstrap.prints_in Bootstrap.map_equals
    Bootstrap.same_assignment Bootstrap.add_assignment Bootstrap.assign_role Bootstrap.is_assignment
    Bootstrap.unassign_role Bootstrap.Assignments.unassigned Bootstrap.grants_for_principal
    Bootstrap.owner_keys Bootstrap.selects Bootstrap.grants_for_owners Bootstrap.grant_error
    Bootstrap.create_grant Bootstrap.create_grants Bootstrap.delete_grants_for_owner
    Bootstrap.note_grant Bootstrap.note_grants Bootstrap.hit_values Bootstrap.principals_with_grant
    Bootstrap.list_grants Bootstrap.Grants.accepted Bootstrap.role_definitions
    Bootstrap.role_definition Bootstrap.create_role Bootstrap.update_role Bootstrap.drop_role
    Bootstrap.delete_role Bootstrap.add_role_inheritance Bootstrap.expand_roles
    Bootstrap.disable_built_in_role Bootstrap.enable_built_in_role Bootstrap.disabled_built_in_roles
    BuiltIn.register_role BuiltIn.role BuiltIn.roles_sorted BuiltIn.add_role_inheritance
    BuiltIn.expand_roles BuiltIn.with_team_scope BuiltIn.add_new_grant BuiltIn.add_grant
    BuiltIn.role_owners BuiltIn.grants_for_owners BuiltIn.roles_with_permission
    BuiltIn.Invariant.call BuiltIn.Invariant.run CachedStore.prefix CachedStore.make_key
    CachedStore.clone_grant CachedStore.clone_page CachedStore.new_store_with_ttl
    CachedStore.Methods.fetch CachedStore.Methods.memoize CachedStore.Methods.invalidate_all
    CachedStore.Methods.role_definitions CachedStore.Methods.role_definition
    CachedStore.Methods.role_assignments_for_principal
    CachedStore.Methods.role_assignments_for_role_id CachedStore.Methods.grants_for_principal
    CachedStore.Methods.expand_roles CachedStore.Methods.grants_for_owners
    CachedStore.Methods.principals_with_grant CachedStore.Methods.disabled_built_in_roles
    CachedStore.Methods.list_grants CachedStore.Methods.after_write CachedStore.Methods.create_grant
    CachedStore.Methods.assign_role CachedStore.Methods.unassign_role
    CachedStore.Methods.create_role CachedStore.Methods.update_role CachedStore.Methods.delete_role
    CachedStore.Methods.add_role_inheritance CachedStore.Methods.delete_grants_for_owner
    CachedStore.Methods.disable_built_in_role CachedStore.Methods.enable_built_in_role
    GrantListing.accepts GrantListing.matches_query GrantListing.offset_of GrantListing.limit_of
    GrantListing.cut GrantListing.below GrantListing.slice_grants GrantListing.page
    GrantListing.list_grants GrantListing.Paging.follow Grants.Bindings.scope_text
    Grants.Bindings.resolve_scope_token Grants.Bindings.check_required
    Grants.Bindings.bindings_of_owner Grants.Bindings.resolve_spec
    Grants.Bindings.resolve_grant_bindings Grants.Equivalence.same_string_set
    Grants.Equivalence.entries_in Grants.Equivalence.binding_values_equal
    Grants.Equivalence.grants_equivalent Grants.Fields.field_path_matches
    Grants.Fields.is_restricted Grants.Fields.grant_matches_field_path
    Grants.Fields.is_indexed_field_path Grants.Matching.matches_team_scope
    Grants.Matching.grant_matches_request Grants.Matching.scope_matches Hierarchy.ensure_self
    Hierarchy.add_role Hierarchy.ancestors_of Hierarchy.spread Hierarchy.closure_with
    Hierarchy.add_edge Hierarchy.delete_in_all Hierarchy.delete_role Hierarchy.expand_one
    Hierarchy.expand_from Hierarchy.expand_roles InMemory.append_assignments
    InMemory.remove_assignment InMemory.add_role_inheritance InMemory.inherit_all
    InMemory.set_role_expansion InMemory.add_grants InMemory.create_grant InMemory.on_kind
    InMemory.assign_role InMemory.unassign_role InMemory.role_assignments_for_principal
    InMemory.hits_in InMemory.role_assignments_for_role_id InMemory.expand_one InMemory.expand_from
    InMemory.expand_roles InMemory.selects InMemory.grants_for_owners InMemory.grants_for_principal
    InMemory.delete_grants_for_owner InMemory.bears_on InMemory.note_bearing
    InMemory.principals_with_grant InMemory.role_definition InMemory.list_grants
    InMemory.Identity.add_user_groups InMemory.Identity.get_user_groups
    InMemory.Identity.get_group_members InMemory.Identity.is_user_in_group
    InMemory.Identity.is_member InMemory.Identity.team_of_entries InMemory.Identity.teams_in
    InMemory.Identity.get_user_teams InMemory.Identity.is_user_in_team JsonStore.clone_grant
    JsonStore.clone_data JsonStore.load JsonStore.new_store JsonStore.save JsonStore.snapshot
    JsonStore.set_data JsonStore.create_grant JsonStore.on_kind JsonStore.assign_role
    JsonStore.unassign_role JsonStore.add_role_inheritance JsonStore.delete_grants_for_owner
    JsonStore.Expanding.pushed JsonStore.Expanding.walk JsonStore.Expanding.edge_count
    JsonStore.Expanding.transitive_expand JsonStore.Expanding.expand_roles JsonStore.Files.load_file
    JsonStore.Files.save_file JsonStore.Identity.clone_identity_data JsonStore.Identity.load
    JsonStore.Identity.new_identity_provider JsonStore.Identity.save
    JsonStore.Identity.set_user_groups JsonStore.Identity.get_user_groups
    JsonStore.Identity.get_group_members JsonStore.Identity.is_user_in_group
    JsonStore.Identity.get_user_teams JsonStore.Identity.is_user_in_team
    JsonStore.Queries.is_user_in_group JsonStore.Queries.get_user_groups
    JsonStore.Queries.get_group_members JsonStore.Queries.get_user_teams
    JsonStore.Queries.is_user_in_team JsonStore.Queries.add_owners JsonStore.Queries.add_groups
    JsonStore.Queries.list_known_group_ids JsonStore.Queries.assignments_of_groups
    JsonStore.Queries.list_role_assignments_for_user_and_groups
    JsonStore.Queries.role_assignments_for_principal JsonStore.Queries.role_assignments_for_role_id
    JsonStore.Queries.grants_for_owners JsonStore.Queries.grants_for_principal
    JsonStore.Queries.principals_with_grant JsonStore.Queries.role_definition
    JsonStore.Queries.list_grants PermissionRegistry.validate PermissionRegistry.register
    PermissionRegistry.lookup PermissionRegistry.exists PermissionRegistry.list
    PermissionRegistry.list_by_namespace PermissionRegistry.size Permissions.default_subject_id
    Permissions.extract_subject_id Permissions.ask Permissions.can_system Permissions.can_team
    Permissions.can_object Permissions.build_hierarchy_object Permissions.can_hierarchical
    Permissions.with_subject Permissions.loop_any Permissions.loop_all Permissions.loop_filter
    Permissions.any_of Permissions.all_of Permissions.filter_of Permissions.team_any
    Permissions.team_all Permissions.team_filter Permissions.object_any Permissions.object_all
    Permissions.object_filter Permissions.hierarchical_filter Permissions.Batches.says_yes
    RoleAssignmentManager.add_removal_rule RoleAssignmentManager.add_assignment_rule
    RoleAssignmentManager.held_in_scope RoleAssignmentManager.proposal_of
    RoleAssignmentManager.compute_proposed RoleAssignmentManager.pointer_bindings
    RoleAssignmentManager.proposed_assignments RoleAssignmentManager.first_objection
    RoleAssignmentManager.can_make_assignment_change RoleAssignmentManager.can_add_roles
    RoleAssignmentManager.can_remove_roles RoleAssignmentManager.scope_bindings
    RoleAssignmentManager.assign_role RoleAssignmentManager.unassign_role
    RoleAssignmentManager.assign_each RoleAssignmentManager.unassign_each
    RoleAssignmentManager.add_roles RoleAssignmentManager.remove_roles
    RoleAssignmentManager.can_remove_bulk_users RoleAssignmentManager.Cleanup.remove_each
    RoleAssignmentManager.Cleanup.remove_bulk_users RoleAssignmentManager.Cleanup.unassign_hits
    RoleAssignmentManager.Cleanup.cleanup_roles
    RoleAssignmentManager.Cleanup.cleanup_all_role_assignments
    RoleAssignmentManager.Cleanup.unassign_if_managed RoleAssignmentManager.Cleanup.unassign_managed
    RoleAssignmentManager.Cleanup.cleanup_team_role_assignments
    RoleAssignmentManager.Combining.holds RoleAssignmentManager.Proposing.has_role
    RoleAssignmentManager.Rules.self_error RoleAssignmentManager.Rules.self_addition
    RoleAssignmentManager.Rules.cannot_add_self RoleAssignmentManager.Rules.self_removal
    RoleAssignmentManager.Rules.cannot_remove_self RoleAssignmentManager.Rules.cannot_combine_roles
    RoleAssignmentManager.Rules.count_kind RoleAssignmentManager.Rules.count_hits
    RoleAssignmentManager.Rules.is_below RoleAssignmentManager.Rules.is_above
    RoleAssignmentManager.Rules.within RoleAssignmentManager.Rules.check_bounds
    RoleAssignmentManager.Rules.min_max_instances RoleAssignmentManager.Rules.diff_set
    RoleAssignmentManager.Rules.diff_role_assignments RoleAssignmentManager.Rules.count_each
    RoleAssignmentManager.Rules.check_left RoleAssignmentManager.Rules.require_at_least
    RoleAssignmentManager.Rules.is_removed RoleAssignmentManager.Rules.validate_removal
    RoleAssignmentManager.Scopes.is_text RoleAssignmentManager.Scopes.fits_scope
    RoleAssignmentManager.Scopes.in_scope
    RoleAssignmentManager.Scopes.filter_assignment_hits_by_scope
    RoleAssignmentManager.Scopes.filter_assignments_by_scope
    Service.Assignments.resolve_user_group_ids Service.Assignments.resolve_user_team_ids
    Service.Assignments.assignment_key Service.Assignments.is_usable
    Service.Assignments.append_unique Service.Assignments.synthetic_role_assignments
    Service.Assignments.append_principals Service.Assignments.resolve_role_assignments
    Service.Ballot.disabled_now Service.Ballot.is_disabled_role Service.Ballot.enabled
    Service.Ballot.expansion Service.Ballot.direct_ballot Service.Ballot.role_ballot
    Service.Ballot.assignment_ballot Service.Ballot.assignments_ballot Service.Ballot.ballot
    Service.Ballot.is_permit Service.Ballot.is_veto Service.Ballot.carried Service.Evaluation.vote
    Service.Evaluation.scan_direct Service.Evaluation.scan_roles Service.Evaluation.scan_assignments
    Service.Evaluation.unbound_owners Service.Evaluation.direct_grants Service.Evaluation.gather
    Service.Evaluation.decide_case Service.Evaluation.evaluate_permission
    Service.Evaluation.has_permission Service.Expansion.says_disabled Service.Expansion.keep_enabled
    Service.Expansion.inherited Service.Expansion.expand_roles_cached
    Service.Expansion.fetch_role_grants Service.Fields.has_field_permission
    Service.Fields.filter_fields Service.Fields.filter_permitted_fields Service.Querying.keep_unseen
    Service.Querying.inherited_by Service.Querying.expand_roles Service.Querying.grants_for_owners
    Service.Querying.disabled_built_in_roles Service.State.fresh_entries
    Service.State.get_disabled_built_in_roles Service.State.invalidate_disabled_cache
    Service.State.or_empty Service.State.with_disabled Service.State.role_definition
    System.create_grant System.first_error System.create_grants System.ensure_grant_for_owner
    System.after_switch System.disable_built_in_role System.enable_built_in_role System.create_role
    System.add_role_inheritance System.update_role System.delete_role System.assign_role
    System.unassign_role System.role_assignments_for_principal System.role_assignments_for_role_id
    System.delete_grants_for_owner System.Batches.exists_already System.Batches.missing_grants
    System.Batches.ensure_grants_for_owners System.Seeding.ensure_role_exists
    System.Seeding.ensure_roles System.Seeding.synthetic_role System.Seeding.synthetic_roles
    System.Seeding.ensure_synthetic_roles System.Seeding.save_grants System.Seeding.save_built_ins
    System.Seeding.seed_grants System.Seeding.add_seeded System.Seeding.role_grant
    System.Seeding.add_built_in_role System.Seeding.add_built_in_team_role
    System.Settings.set_public_role_id System.Settings.set_authenticated_role_id
    System.Settings.set_admin_role_id System.Settings.set_admin_group_id
    System.Settings.set_synthetic_role_ids System.Settings.apply_default_synthetic_role_ids
    System.Settings.set_identity_provider System.Settings.set_store
    System.Settings.set_built_in_grants System.Shortcuts.allow_user
    System.Shortcuts.allow_user_until System.Shortcuts.lasting System.Shortcuts.allow_user_for
    System.Shortcuts.deny_user System.Shortcuts.deny_user_until System.Shortcuts.deny_user_for
    System.Shortcuts.allow_role System.Shortcuts.allow_role_until System.Shortcuts.allow_role_for
    System.Shortcuts.assign_role_to_user System.Shortcuts.default_role_id
    System.Shortcuts.add_default_grant System.Writes.write System.Writes.write_all
    Types.is_active_at Types.is_expired_at Types.is_principal_kind Types.validate_principal
    Types.validate_role Types.Numbers.scan_digits Types.Numbers.parse_digits Types.Numbers.in_range
    Types.Numbers.atoi Types.Numbers.add_int Types.Principals.principal_key
    Types.Principals.split_first Types.Principals.parse_principal_key Types.Principals.Keys.lacks
    Types.digit Types.print_fuel Types.itoa Types.sprint Types.int_eq Types.deep_equal
program = tt
