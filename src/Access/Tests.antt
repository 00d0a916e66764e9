-- ===== src/Access/Tests.antt =====
-- src/modules/permissions/access.ts: grants and removals on concrete tables.
use nanoclaw_github_copilot.Base.{
  ◌≡◌, refl, not, ◌&&◌, ◌||◌, str_eq, none, some, is_some, includes, [], ◌∷◌,
}
use nanoclaw_github_copilot.Access.{
  owner, admin, UserRole, AccessDb, has_role, grant_role, remove_member, is_owner, is_global_admin,
  is_admin_of_agent_group, has_admin_privilege, without_member, has_member, has_membership_row,
  is_member, can_access_agent_group, is_allowed, as_admin_of_group, not_member,
}
use nanoclaw_github_copilot.Access.Grants.{
  gives, or_same, is_allowed-grant_role, is_allowed-remove_member,
}

abbrev office : AccessDb
office = record {
  users = "tg:1" ∷ "tg:2" ∷ [];
  agent_groups = "a" ∷ "b" ∷ [];
  user_roles =
      record {
        user_id = "tg:1";
        role = owner;
        agent_group_id = none;
        granted_by = none;
        granted_at = 1;
      }
      ∷ [];
  agent_group_members =
      record { user_id = "tg:2"; agent_group_id = "a"; added_by = some "tg:1"; added_at = 2 } ∷ [];
}

abbrev admin_of_b : UserRole
admin_of_b = record {
  user_id = "tg:2";
  role = admin;
  agent_group_id = some "b";
  granted_by = some "tg:1";
  granted_at = 3;
}

before : can_access_agent_group "tg:2" "b" office ≡ not_member
unfolding includes can_access_agent_group is_owner is_global_admin is_admin_of_agent_group is_member
    has_membership_row has_role has_member
before = refl

after :
    can_access_agent_group "tg:2" "b" (or_same office (grant_role admin_of_b office))
    ≡ as_admin_of_group
unfolding includes can_access_agent_group is_owner is_global_admin is_admin_of_agent_group
    grant_role has_role
after = refl

-- An owner of one group is refused.
refused : grant_role (record admin_of_b { role = owner }) office ≡ none
unfolding grant_role has_role
refused = refl

taken_out : can_access_agent_group "tg:2" "a" (remove_member "tg:2" "a" office) ≡ not_member
unfolding includes can_access_agent_group is_owner is_global_admin is_admin_of_agent_group is_member
    has_membership_row has_role has_member remove_member without_member
taken_out = refl

is_allowed-grant_role_example :
    is_allowed (can_access_agent_group "tg:2" "b" (or_same office (grant_role admin_of_b office)))
    ≡ (is_allowed (can_access_agent_group "tg:2" "b" office)
        || (is_some (grant_role admin_of_b office) && gives admin_of_b "tg:2" "b"))
is_allowed-grant_role_example = is_allowed-grant_role admin_of_b office "tg:2" "b"

is_allowed-remove_member_example :
    is_allowed (can_access_agent_group "tg:2" "a" (remove_member "tg:2" "a" office)) ≡ (
      is_allowed (can_access_agent_group "tg:2" "a" office)
      && (not (str_eq "tg:2" "tg:2" && str_eq "a" "a") || has_admin_privilege "tg:2" "a" office))
is_allowed-remove_member_example = is_allowed-remove_member "tg:2" "a" "tg:2" "a" office
