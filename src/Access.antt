-- ===== src/Access.antt =====
-- src/modules/permissions/access.ts with the tables of src/modules/permissions/db: who may talk to an agent group.
-- Foreign keys are enforced; the unique keys are the primary keys and the index of
-- src/db/migrations/108-user-roles-dedup.ts. `paired` is a role that src/v2-access.ts writes to the same column.
pub mod Grants
pub mod Tests
use nanoclaw_github_copilot.Base.{
  ℕ, String, Bool, true, false, not, ◌&&◌, ◌||◌, Option, none, some, is_some, List, [], ◌∷◌, ◌++◌,
  if◌then◌else◌, str_eq, includes,
}

pub data UserRoleKind : Type 0 where
  owner admin paired : UserRoleKind

pub record UserRole : Type 0 where
  pub user_id : String
  pub role : UserRoleKind
  pub agent_group_id : Option String
  pub granted_by : Option String
  pub granted_at : ℕ

pub record AgentGroupMember : Type 0 where
  pub user_id : String
  pub agent_group_id : String
  pub added_by : Option String
  pub added_at : ℕ

-- The ids of the tables users and agent_groups, and the rows of the other two.
pub record AccessDb : Type 0 where
  pub users : List String
  pub agent_groups : List String
  pub user_roles : List UserRole
  pub agent_group_members : List AgentGroupMember

abbrev pub same_role : UserRoleKind → UserRoleKind → Bool
same_role owner owner = true
same_role admin admin = true
same_role paired paired = true
same_role _ _ = false

-- `agent_group_id IS NULL` or `agent_group_id = ?`
abbrev pub same_scope : Option String → Option String → Bool
same_scope none none = true
same_scope (some g) (some h) = str_eq g h
same_scope _ _ = false

abbrev pub is_role : String → UserRoleKind → Option String → UserRole → Bool
is_role user_id role scope r =
    str_eq r.user_id user_id && same_role r.role role && same_scope r.agent_group_id scope

-- `SELECT 1 FROM user_roles WHERE user_id = ? AND role = ? AND …`
unfoldable pub has_role : String → UserRoleKind → Option String → List UserRole → Bool
has_role user_id role scope [] = false
has_role user_id role scope (r ∷ rs) =
    is_role user_id role scope r || has_role user_id role scope rs

abbrev known_scope : List String → Option String → Bool
known_scope groups none = true
known_scope groups (some g) = includes groups g

abbrev known_granter : List String → Option String → Bool
known_granter users none = true
known_granter users (some user_id) = includes users user_id

abbrev owner_is_global : UserRoleKind → Option String → Bool
owner_is_global owner scope = not (is_some scope)
owner_is_global _ scope = true

-- `grantRole`: `none` where it throws, for an owner of one group, a row that is there, or a missing user or group.
unfoldable pub grant_role : UserRole → AccessDb → Option AccessDb
unfolding has_role
grant_role row db =
    if owner_is_global row.role row.agent_group_id
      && not (has_role row.user_id row.role row.agent_group_id db.user_roles)
      && includes db.users row.user_id
      && known_scope db.agent_groups row.agent_group_id
      && known_granter db.users row.granted_by
    then some (record db { user_roles = db.user_roles ++ row ∷ [] })
    else none

unfoldable pub without_role : String → UserRoleKind → Option String → List UserRole → List UserRole
without_role user_id role scope [] = []
without_role user_id role scope (r ∷ rs) =
    let kept = without_role user_id role scope rs in
    if is_role user_id role scope r then kept else r ∷ kept

unfoldable pub revoke_role : String → UserRoleKind → Option String → AccessDb → AccessDb
unfolding without_role
revoke_role user_id role scope db = record db {
  user_roles = without_role user_id role scope db.user_roles;
}

unfoldable pub is_owner : String → AccessDb → Bool
unfolding has_role
is_owner user_id db = has_role user_id owner none db.user_roles

unfoldable pub is_global_admin : String → AccessDb → Bool
unfolding has_role
is_global_admin user_id db = has_role user_id admin none db.user_roles

unfoldable pub is_admin_of_agent_group : String → String → AccessDb → Bool
unfolding has_role
is_admin_of_agent_group user_id group db = has_role user_id admin (some group) db.user_roles

unfoldable pub has_admin_privilege : String → String → AccessDb → Bool
unfolding is_owner is_global_admin is_admin_of_agent_group
has_admin_privilege user_id group db =
    is_owner user_id db || is_global_admin user_id db || is_admin_of_agent_group user_id group db

unfoldable pub has_member : String → String → List AgentGroupMember → Bool
has_member user_id group [] = false
has_member user_id group (m ∷ ms) =
    str_eq m.user_id user_id && str_eq m.agent_group_id group || has_member user_id group ms

unfoldable pub has_membership_row : String → String → AccessDb → Bool
unfolding has_member
has_membership_row user_id group db = has_member user_id group db.agent_group_members

-- `addMember`: a row that is there is left; `none` where a foreign key is missing.
unfoldable pub add_member : AgentGroupMember → AccessDb → Option AccessDb
unfolding has_membership_row
add_member row db =
    if has_membership_row row.user_id row.agent_group_id db
    then some db
    else if includes db.users row.user_id
        && includes db.agent_groups row.agent_group_id
        && known_granter db.users row.added_by
    then some (record db { agent_group_members = db.agent_group_members ++ row ∷ [] })
    else none

unfoldable pub without_member : String → String → List AgentGroupMember → List AgentGroupMember
without_member user_id group [] = []
without_member user_id group (m ∷ ms) =
    let kept = without_member user_id group ms in
    if str_eq m.user_id user_id && str_eq m.agent_group_id group then kept else m ∷ kept

unfoldable pub remove_member : String → String → AccessDb → AccessDb
unfolding without_member
remove_member user_id group db = record db {
  agent_group_members = without_member user_id group db.agent_group_members;
}

unfoldable pub is_member : String → String → AccessDb → Bool
unfolding is_owner is_global_admin is_admin_of_agent_group has_membership_row
is_member user_id group db =
    if is_owner user_id db || is_global_admin user_id db || is_admin_of_agent_group user_id group db
    then true
    else has_membership_row user_id group db

pub data AccessDecision : Type 0 where
  as_owner as_global_admin as_admin_of_group as_member : AccessDecision
  unknown_user not_member : AccessDecision

unfoldable pub can_access_agent_group : String → String → AccessDb → AccessDecision
unfolding is_owner is_global_admin is_admin_of_agent_group is_member
can_access_agent_group user_id group db =
    if not (includes db.users user_id)
    then unknown_user
    else if is_owner user_id db
    then as_owner
    else if is_global_admin user_id db
    then as_global_admin
    else if is_admin_of_agent_group user_id group db
    then as_admin_of_group
    else if is_member user_id group db
    then as_member
    else not_member

-- `allowed`
abbrev pub is_allowed : AccessDecision → Bool
is_allowed unknown_user = false
is_allowed not_member = false
is_allowed _ = true
