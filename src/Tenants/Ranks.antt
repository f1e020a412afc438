-- ===== src/Tenants/Ranks.antt =====
-- The ranks of the roles against the permissions that they stand for.
use Prim.Native.String.{String}
use philotes.Common.{Bool, true, false, ◌||◌, ◌≡◌, refl, none, some, List, is_some, arith}
use philotes.Tenants.{TenantRole, admin, operator, viewer, custom, other, tenant_role_permissions}
use philotes.Tenants.Requests.{has_text}
use philotes.Tenants.Access.{TenantContext, role_rank, has_all_permissions, has_minimum_role}

abbrev is_viewer : TenantRole → Bool
is_viewer viewer = true
is_viewer _ = false

-- The permissions of a role with a rank, and the user's own without one.
abbrev pub standing : TenantRole → List String → List String
standing role permissions = elim (role_rank role) [
  | some rank ↦ tenant_role_permissions role
  | none ↦ permissions
]

-- The test on a role and the permissions of its user.
abbrev reaches : TenantRole → List String → TenantRole → Bool
unfolding has_minimum_role
reaches role permissions min_role =
    has_minimum_role (record { tenant_id = 0; role = role; permissions = permissions }) min_role

by_roles :
    (role : TenantRole) (permissions : List String) (min_role : TenantRole)
    → is_some (role_rank min_role) ≡ true
    → reaches role permissions min_role ≡ (
        has_all_permissions (standing role permissions) (tenant_role_permissions min_role)
        || is_viewer min_role)
unfolding has_minimum_role has_all_permissions has_text
by_roles role ps custom h = absurd (ground (arith, h))
by_roles role ps (other t) h = absurd (ground (arith, h))
by_roles admin ps admin h = refl
by_roles admin ps operator h = refl
by_roles admin ps viewer h = refl
by_roles operator ps admin h = refl
by_roles operator ps operator h = refl
by_roles operator ps viewer h = refl
by_roles viewer ps admin h = refl
by_roles viewer ps operator h = refl
by_roles viewer ps viewer h = refl
by_roles custom ps admin h = refl
by_roles custom ps operator h = refl
by_roles custom ps viewer h = refl
by_roles (other s) ps admin h = refl
by_roles (other s) ps operator h = refl
by_roles (other s) ps viewer h = refl

-- For a least role with a rank, the test on ranks is one on permissions: the role of a user is enough if its
-- permissions, or those of the user with a custom role, have all permissions of the least role, and for the
-- least role viewer it is enough in any case, also without a permission.
pub has_minimum_role-permissions :
    (tc : TenantContext) (min_role : TenantRole)
    → is_some (role_rank min_role) ≡ true
    → has_minimum_role tc min_role ≡ (
        has_all_permissions (standing tc.role tc.permissions) (tenant_role_permissions min_role)
        || is_viewer min_role)
unfolding has_minimum_role has_all_permissions has_text
has_minimum_role-permissions tc min_role h = by_roles (tc.role) (tc.permissions) min_role h
