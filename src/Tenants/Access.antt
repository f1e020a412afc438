-- ===== src/Tenants/Access.antt =====
-- internal/api/middleware/tenant.go: the tenant of a request, and the role and permissions that it needs there.
use Prim.Native.String.{String}
use text.Mathlib.Text.{◌==◌ as str_eq}
use philotes.Common.{
  ℕ, Bool, true, not, ◌&&◌, ◌||◌, Option, none, some, List, [], ◌∷◌, leb, if◌then◌else◌,
}
use philotes.Common.Actions.{Answer, done, raised, pure, raise, some_or, with_error, ◌>>=◌, ◌>>◌}
use philotes.Tenants.{
  TenantRole, admin, operator, viewer, custom, other, User, is_global_admin,
  tenant_role_permissions, TenantDb, Stored,
}
use philotes.Tenants.Requests.{has_text}
use philotes.Tenants.Service.{is_member, get_member_role, get_member_permissions}
use philotes.Tenants.Handlers.{Handler, unless_refused}

-- Whether there is a tenant service is a field; the default tenant is what its ID parses to.
pub record TenantConfig : Type 0 where
  pub enabled : Bool
  pub has_service : Bool
  pub tenant_header : String
  pub default_tenant_id : Option ℕ
  pub allow_cross_tenant_access : Bool

pub record TenantContext : Type 0 where
  pub tenant_id : ℕ
  pub role : TenantRole
  pub permissions : List String

-- What the middlewares leave with a request: the ID, the context and the role of its tenant.
pub record RequestKeys : Type 0 where
  pub tenant_id : Option ℕ
  pub tenant_context : Option TenantContext
  pub tenant_role : Option TenantRole

-- The headers of a request: for a name, no value or what the value parses to.
abbrev pub Headers : Type 0
Headers = String → Option (Option ℕ)

abbrev pub default_tenant : ℕ
default_tenant = 1

abbrev given : {A : Type 0} → A → Option A → A
given d none = d
given d (some a) = a

-- The header of the configuration, or else `X-Tenant-ID`.
abbrev pub tenant_text : TenantConfig → Headers → Option (Option ℕ)
tenant_text cfg headers = elim (headers cfg.tenant_header) [
  | some text ↦ some text
  | none ↦ if str_eq cfg.tenant_header "X-Tenant-ID" then none else headers "X-Tenant-ID"
]

unfoldable pub extract_tenant : TenantConfig → Headers → RequestKeys → Handler RequestKeys
extract_tenant cfg headers keys =
    if not cfg.enabled
    then pure (record keys { tenant_id = some (given default_tenant cfg.default_tenant_id) })
    else elim (tenant_text cfg headers) [
      | none ↦ pure keys
      | some none ↦ raise 400
      | some (some id) ↦ pure (record keys { tenant_id = some id })
    ]

abbrev pub default_on_error : {A : Type 0} → A → Answer ℕ A × TenantDb → Answer ℕ A × TenantDb
default_on_error d (done a, s) = (done a, s)
default_on_error d (raised x, s) = (done d, s)

-- The value of a call, or another one for any error of it.
unfoldable pub or_default : {A : Type 0} → A → Handler A → Handler A
or_default d m s = default_on_error d (m s)

abbrev pub failed_with : {A : Type 0} → ℕ → Stored A → Handler A
failed_with status m = with_error (λ e. status) m

-- The context of a member: the role and the permissions are those of a viewer where they cannot be read.
unfoldable pub member_context : ℕ → ℕ → Handler TenantContext
unfolding is_member get_member_role get_member_permissions or_default
member_context tenant user = do
  found ← failed_with 500 (is_member tenant user)
  unless_refused (not found) 403
  role ← or_default viewer (failed_with 500 (get_member_role tenant user))
  permissions ←
      or_default (tenant_role_permissions viewer)
        (failed_with 500 (get_member_permissions tenant user))
  pure (record { tenant_id = tenant; role = role; permissions = permissions })

abbrev pub admin_context : ℕ → TenantContext
admin_context tenant = record {
  tenant_id = tenant;
  role = admin;
  permissions = tenant_role_permissions admin;
}

unfoldable pub require_tenant : TenantConfig → Option User → RequestKeys → Handler RequestKeys
unfolding member_context
require_tenant cfg auth keys = if not cfg.enabled then pure keys else (do
  tenant ← some_or 400 keys.tenant_id
  user ← some_or 401 auth
  if cfg.allow_cross_tenant_access && is_global_admin user.role
      then pure (record keys { tenant_context = some (admin_context tenant) })
      else (do
        unless_refused (not cfg.has_service) 500
        context ← member_context tenant user.id
        pure (record keys { tenant_context = some context; tenant_role = some (context.role) })))

-- The rank of a role; a custom role has none.
abbrev pub role_rank : TenantRole → Option ℕ
role_rank viewer = some 1
role_rank operator = some 2
role_rank admin = some 3
role_rank custom = none
role_rank (other s) = none

unfoldable pub has_all_permissions : List String → List String → Bool
unfolding has_text
has_all_permissions user_perms [] = true
has_all_permissions user_perms (p ∷ ps) = has_text p user_perms && has_all_permissions user_perms ps

-- Without a rank, all permissions of the least role do; else the rank is that of a viewer.
unfoldable pub has_minimum_role : TenantContext → TenantRole → Bool
unfolding has_all_permissions
has_minimum_role tc min_role = elim (role_rank tc.role) [
  | some rank ↦ leb (given 1 (role_rank min_role)) rank
  | none ↦
      has_all_permissions tc.permissions (tenant_role_permissions min_role)
      || leb (given 1 (role_rank min_role)) 1
]

unfoldable pub require_tenant_role : TenantRole → RequestKeys → Handler (Unit {0})
unfolding has_minimum_role
require_tenant_role min_role keys = do
  context ← some_or 403 keys.tenant_context
  unless_refused (not (has_minimum_role context min_role)) 403

unfoldable pub require_tenant_permission : String → RequestKeys → Handler (Unit {0})
unfolding has_text
require_tenant_permission permission keys = do
  context ← some_or 403 keys.tenant_context
  unless_refused (not (has_text permission context.permissions)) 403

-- `GetTenantIDOrDefault`, for the default ID of the configuration, if it parses.
unfoldable pub tenant_id_or_default : RequestKeys → Option ℕ → ℕ
tenant_id_or_default keys default_id = given (given default_tenant default_id) keys.tenant_id
