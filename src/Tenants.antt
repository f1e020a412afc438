-- ===== src/Tenants.antt =====
-- The tenants of the API, their members and their roles (internal/api/models/tenant.go, auth.go). UUIDs are
-- numbers, of which 0 is the nil one; settings are JSON that is handed on, and known by a number.
mod Tests
pub mod Requests
pub mod Store
pub mod Service
pub mod Handlers
pub mod Access
mod Reads
mod Counts
mod Admins
mod Writes
mod Creates
mod Steps
mod Answers
mod Routes
mod Added
pub mod Governed
mod Outside
pub mod Authority
mod Permit
mod Vouched
pub mod Permitted
pub mod Ranks
pub mod Readers
use Prim.Native.String.{String}
use philotes.Common.{ℕ, Bool, true, false, Option, List, [], ◌∷◌, ◌++◌}
use philotes.Common.Errors.{GoError}
use philotes.Common.Actions.{Action}

-- The role of a user in a tenant, a string; `other ""` is none.
pub data TenantRole : Type 0 where
  admin operator viewer custom : TenantRole
  other : String → TenantRole

abbrev pub is_tenant_admin : TenantRole → Bool
is_tenant_admin admin = true
is_tenant_admin operator = false
is_tenant_admin viewer = false
is_tenant_admin custom = false
is_tenant_admin (other s) = false

-- The role of a user in the whole system.
pub data UserRole : Type 0 where
  global_admin global_operator global_viewer : UserRole
  other_role : String → UserRole

abbrev pub is_global_admin : UserRole → Bool
is_global_admin global_admin = true
is_global_admin global_operator = false
is_global_admin global_viewer = false
is_global_admin (other_role s) = false

-- What the tenants read of a user.
pub record User : Type 0 where
  pub id : ℕ
  pub role : UserRole

abbrev pub reading : List String
reading =
    "tenants:read" ∷ "members:read" ∷ "roles:read" ∷ "sources:read" ∷ "pipelines:read"
    ∷ "api-keys:read" ∷ "scaling:read" ∷ "alerts:read" ∷ []

-- The permissions beside those of a viewer.
abbrev pub operating : List String
operating =
    "sources:write" ∷ "pipelines:write" ∷ "pipelines:control" ∷ "api-keys:write" ∷ "scaling:write"
    ∷ "alerts:write" ∷ []

abbrev pub administering : List String
administering = "tenants:write" ∷ "members:write" ∷ "roles:write" ∷ []

-- A set of permissions for each role; those of other roles are none.
abbrev pub tenant_role_permissions : TenantRole → List String
tenant_role_permissions admin = reading ++ operating ++ administering
tenant_role_permissions operator = reading ++ operating
tenant_role_permissions viewer = reading
tenant_role_permissions custom = []
tenant_role_permissions (other s) = []

abbrev pub valid_tenant_permissions : List String
valid_tenant_permissions = reading ++ operating ++ administering

pub record Tenant : Type 0 where
  pub id : ℕ
  pub name : String
  pub slug : String
  pub owner_user_id : Option ℕ
  pub is_active : Bool
  pub settings : ℕ
  pub created_at : ℕ
  pub updated_at : ℕ

pub record TenantMember : Type 0 where
  pub id : ℕ
  pub tenant_id : ℕ
  pub user_id : ℕ
  pub role : TenantRole
  pub custom_permissions : List String
  pub created_at : ℕ
  pub updated_at : ℕ

pub record TenantCustomRole : Type 0 where
  pub id : ℕ
  pub tenant_id : ℕ
  pub name : String
  pub description : String
  pub permissions : List String
  pub created_at : ℕ
  pub updated_at : ℕ

-- The errors of the repositories, and of the service over them. A number says which `fmt.Errorf` wraps an
-- error of the database.
pub data TenantError : Type 0 where
  tenant_missing member_missing user_missing role_missing : TenantError
  slug_taken member_exists role_name_taken : TenantError
  database : ℕ → GoError → TenantError
  wrapped_error : ℕ → TenantError → TenantError
  invalid : List String → TenantError
  not_found conflict : String → TenantError
  cannot_remove_owner cannot_demote_last_admin cannot_remove_last_admin : TenantError

-- The tables, `philotes.tenants`, `tenant_members`, `tenant_roles` and the IDs of `users`. A statement fails
-- as `faults` says, and then changes nothing.
pub record TenantDb : Type 0 where
  pub tenants : List Tenant
  pub members : List TenantMember
  pub roles : List TenantCustomRole
  pub users : List ℕ
  pub next_id : ℕ
  pub now : ℕ
  pub faults : List (Option GoError)

abbrev pub Stored : Type 0 → Type 0
Stored A = Action TenantError TenantDb A
