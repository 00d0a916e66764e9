-- ===== src/Access/Grants.antt =====
-- src/modules/permissions/access.ts: what a grant, a revocation and a membership change.
use nanoclaw_github_copilot.Base.{
  ◌≡◌, refl, sym, ap, subst, ◌∙◌, String, Bool, true, false, not, ◌&&◌, ◌||◌, Option, none, some,
  is_some, List, [], ◌∷◌, ◌++◌, arith, if◌then◌else◌, if_elim, str_eq, eq_iff, includes,
}
use nanoclaw_github_copilot.Access.{
  UserRoleKind, owner, admin, paired, UserRole, AgentGroupMember, AccessDb, same_role, same_scope,
  is_role, has_role, grant_role, is_owner, is_global_admin, is_admin_of_agent_group,
  has_admin_privilege, has_member, has_membership_row, without_member, remove_member, is_member,
  can_access_agent_group, is_allowed,
}

or_false : (a : Bool) → (a || false) ≡ a
or_false true = refl
or_false false = refl

or_assoc : (a b c : Bool) → (a || (b || c)) ≡ ((a || b) || c)
or_assoc true b c = refl
or_assoc false b c = refl

has_role-snoc :
    (user_id : String) (role : UserRoleKind) (scope : Option String) (rows : List UserRole)
    (row : UserRole)
    → has_role user_id role scope (rows ++ row ∷ [])
      ≡ (has_role user_id role scope rows || is_role user_id role scope row)
unfolding has_role
has_role-snoc user_id role scope [] row = or_false (is_role user_id role scope row)
has_role-snoc user_id role scope (r ∷ rows) row =
    ap (λ (b : Bool). is_role user_id role scope r || b) (has_role-snoc user_id role scope rows row)
    ∙ or_assoc (is_role user_id role scope r) (has_role user_id role scope rows)
        (is_role user_id role scope row)

member_left :
    (gone wanted same rest : Bool)
    → (gone ≡ true → wanted ≡ same)
    → (same ≡ true → gone ≡ wanted)
    → (if gone then rest && not same else wanted || (rest && not same))
      ≡ ((wanted || rest) && not same)
member_left true true same rest g s = ground (arith, g refl)
member_left true false same rest g s = refl
member_left false true true rest g s = absurd (cc (s refl))
member_left false true false rest g s = ground arith
member_left false false same rest g s = refl

-- A row of a user in a group.
abbrev is_row : String → String → AgentGroupMember → Bool
is_row user_id group m = str_eq m.user_id user_id && str_eq m.agent_group_id group

row_same :
    (gone group user_id other : String) (m : AgentGroupMember)
    → is_row gone group m ≡ true
    → is_row user_id other m ≡ (str_eq gone user_id && str_eq group other)
row_same gone group user_id other m h =
    ground (arith, h, eq_iff m.user_id gone, eq_iff m.agent_group_id group)

same_row :
    (gone group user_id other : String) (m : AgentGroupMember)
    → (str_eq gone user_id && str_eq group other) ≡ true
    → is_row gone group m ≡ is_row user_id other m
same_row gone group user_id other m h = ground (arith, h, eq_iff gone user_id, eq_iff group other)

if_true : (b x y : Bool) → b ≡ true → (if b then x else y) ≡ x
if_true true x y e = refl
if_true false x y e = absurd (cc e)

if_false : (b x y : Bool) → b ≡ false → (if b then x else y) ≡ y
if_false false x y e = refl
if_false true x y e = absurd (cc e)

has_member-without :
    (gone group user_id other : String) (rows : List AgentGroupMember)
    → has_member user_id other (without_member gone group rows)
      ≡ (has_member user_id other rows && not (str_eq gone user_id && str_eq group other))
unfolding has_member without_member
has_member-without gone group user_id other [] = refl
has_member-without gone group user_id other (m ∷ rows) =
    let same = str_eq gone user_id && str_eq group other in
    let wanted = is_row user_id other m in
    let rest = has_member user_id other rows && not same in
    if_elim
      (λ (r : List AgentGroupMember).
        has_member user_id other r ≡ (if is_row gone group m then rest else wanted || rest))
      (is_row gone group m) {x = without_member gone group rows}
      {y = m ∷ without_member gone group rows}
      (λ e. has_member-without gone group user_id other rows ∙ sym (if_true _ _ _ e))
      (λ e.
        ap (λ (b : Bool). wanted || b) (has_member-without gone group user_id other rows)
        ∙ sym (if_false _ _ _ e))
    ∙ member_left (is_row gone group m) wanted same (has_member user_id other rows)
        (row_same gone group user_id other m) (same_row gone group user_id other m)

-- Access is what the rows say.
abbrev rows_allow : String → String → AccessDb → Bool
rows_allow user_id group db =
    includes db.users user_id
    && (has_role user_id owner none db.user_roles
        || has_role user_id admin none db.user_roles
        || has_role user_id admin (some group) db.user_roles
        || has_member user_id group db.agent_group_members)

allowed-rows :
    (user_id group : String) (db : AccessDb)
    → is_allowed (can_access_agent_group user_id group db) ≡ rows_allow user_id group db
unfolding can_access_agent_group is_owner is_global_admin is_admin_of_agent_group is_member
    has_membership_row
allowed-rows user_id group db = ground arith

abbrev row_gives : UserRoleKind → Option String → String → Bool
row_gives owner scope group = not (is_some scope)
row_gives admin none group = true
row_gives admin (some g) group = str_eq g group
row_gives paired scope group = false

-- The row is of the user, and gives access to the group: an owner or an admin of all groups, or of this one.
abbrev pub gives : UserRole → String → String → Bool
gives row user_id group = str_eq row.user_id user_id && row_gives row.role row.agent_group_id group

gives-roles :
    (s : Bool) (role : UserRoleKind) (scope : Option String) (group : String)
    → ((s && same_role role owner && same_scope scope none)
        || (s && same_role role admin && same_scope scope none)
        || (s && same_role role admin && same_scope scope (some group)))
      ≡ (s && row_gives role scope group)
gives-roles false role scope group = refl
gives-roles true owner none group = refl
gives-roles true owner (some g) group = refl
gives-roles true admin none group = refl
gives-roles true admin (some g) group = refl
gives-roles true paired scope group = refl

-- One more row, in the formula of access.
one_more :
    (known o a s m o' a' s' given : Bool)
    → (o' || a' || s') ≡ given
    → (given ≡ true → known ≡ true)
    → (known && ((o || o') || (a || a') || (s || s') || m))
      ≡ ((known && (o || a || s || m)) || given)
one_more known o a s m o' a' s' given e k = ground (arith, e, k)

-- The tables after a call: where it throws, they are as before.
abbrev pub or_same : AccessDb → Option AccessDb → AccessDb
or_same db none = db
or_same db (some next) = next

known_user :
    (row : UserRole) (user_id group : String) (users : List String)
    → includes users row.user_id ≡ true
    → gives row user_id group ≡ true
    → includes users user_id ≡ true
known_user row user_id group users known given =
    let same : row.user_id ≡ user_id = ground (arith, given, eq_iff row.user_id user_id) in
    subst (λ (s : String). includes users s ≡ true) same known

allowed-grant :
    (row : UserRole) (db : AccessDb) (user_id group : String)
    → includes db.users row.user_id ≡ true
    → is_allowed (
        can_access_agent_group user_id group (record db { user_roles = db.user_roles ++ row ∷ [] }))
      ≡ (is_allowed (can_access_agent_group user_id group db) || gives row user_id group)
allowed-grant row db user_id group known =
    let roles = db.user_roles in
    rw (
      allowed-rows user_id group (record db { user_roles = roles ++ row ∷ [] }),
      allowed-rows user_id group db,
      has_role-snoc user_id owner none roles row,
      has_role-snoc user_id admin none roles row,
      has_role-snoc user_id admin (some group) roles row,
      one_more (includes db.users user_id) (has_role user_id owner none roles)
          (has_role user_id admin none roles) (has_role user_id admin (some group) roles)
          (has_member user_id group db.agent_group_members) (is_role user_id owner none row)
          (is_role user_id admin none row) (is_role user_id admin (some group) row)
          (gives row user_id group)
          (gives-roles (str_eq row.user_id user_id) row.role row.agent_group_id group)
          (known_user row user_id group db.users known),
    )

-- Granting a role: after the call a user may talk to a group when they could before, or when the row that was inserted
-- is theirs and is an owner's, an admin's of all groups, or an admin's of that group. A refused grant changes nothing,
-- and no other user's access changes.
pub is_allowed-grant_role :
    (row : UserRole) (db : AccessDb) (user_id group : String)
    → is_allowed (can_access_agent_group user_id group (or_same db (grant_role row db))) ≡ (
        is_allowed (can_access_agent_group user_id group db)
        || (is_some (grant_role row db) && gives row user_id group))
unfolding grant_role
is_allowed-grant_role row db user_id group =
    if_elim
      (λ (r : Option AccessDb). is_allowed (can_access_agent_group user_id group (or_same db r)) ≡ (
        is_allowed (can_access_agent_group user_id group db)
        || (is_some r && gives row user_id group)))
      _ {x = some (record db { user_roles = db.user_roles ++ row ∷ [] })} {y = none}
      (λ e. allowed-grant row db user_id group (ground (arith, e))) (λ _. sym (or_false _))

-- One row less, in the formula of access.
one_less :
    (known o a s m same : Bool)
    → (known && (o || a || s || (m && not same)))
      ≡ ((known && (o || a || s || m)) && (not same || (o || a || s)))
one_less known o a s m same = ground arith

-- Taking a member out of a group: after it a user may talk to a group when they could before, and, if they are the one
-- taken out and the group is that one, when they still have an owner's or admin's privilege over it.
pub is_allowed-remove_member :
    (gone group user_id other : String) (db : AccessDb)
    → is_allowed (can_access_agent_group user_id other (remove_member gone group db)) ≡ (
        is_allowed (can_access_agent_group user_id other db)
        && (not (str_eq gone user_id && str_eq group other)
            || has_admin_privilege user_id other db))
unfolding remove_member has_admin_privilege is_owner is_global_admin is_admin_of_agent_group
is_allowed-remove_member gone group user_id other db = rw (
  allowed-rows user_id other (remove_member gone group db),
  allowed-rows user_id other db,
  has_member-without gone group user_id other db.agent_group_members,
  one_less (includes db.users user_id) (has_role user_id owner none db.user_roles)
      (has_role user_id admin none db.user_roles)
      (has_role user_id admin (some other) db.user_roles)
      (has_member user_id other db.agent_group_members) (str_eq gone user_id && str_eq group other),
)
