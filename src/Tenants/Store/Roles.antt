-- ===== src/Tenants/Store/Roles.antt =====
-- The statements on `tenant_roles` (internal/api/repositories/role.go).
use Prim.Native.String.{String}
use philotes.Common.{
  ℕ, ◌+◌, Bool, false, not, Option, none, some, List, [], ◌∷◌, ◌++◌, map, keep, ◌==◌, if◌then◌else◌,
  is_some,
}
use philotes.Common.Actions.{some_or, ◌>>=◌, ◌>>◌}
use philotes.Tenants.{
  TenantCustomRole, TenantError, role_missing, role_name_taken, database, TenantDb, Stored,
}
use philotes.Tenants.Requests.{UpdateCustomRoleRequest}
use philotes.Tenants.Store.Statements.{
  foreign_key, query, write, refuse_if, given_or, find_tenant, find_role, role_name_used,
}

unfoldable pub get_role : ℕ → Stored TenantCustomRole
unfolding query
get_role id = do found ← query 15 (λ db. find_role id db.roles); some_or role_missing found

unfoldable pub list_roles_by_tenant : ℕ → Stored (List TenantCustomRole)
unfolding query
list_roles_by_tenant tenant = query 16 (λ db. keep (λ r. r.tenant_id == tenant) db.roles)

abbrev pub new_role : TenantDb → ℕ → String → String → List String → TenantCustomRole
new_role db tenant name description permissions = record {
  id = db.next_id;
  tenant_id = tenant;
  name = name;
  description = description;
  permissions = permissions;
  created_at = db.now;
  updated_at = db.now;
}

abbrev pub with_role : ℕ → String → String → List String → TenantDb → TenantDb
with_role tenant name description permissions db = record db {
  roles = db.roles ++ (new_role db tenant name description permissions ∷ []);
  next_id = db.next_id + 1;
}

abbrev pub refused_role : ℕ → String → TenantDb → Option TenantError
refused_role tenant name db =
    if role_name_used tenant name db.next_id db.roles
    then some role_name_taken
    else refuse_if (not (is_some (find_tenant tenant db.tenants))) (database 17 foreign_key)

unfoldable pub store_create_role : ℕ → String → String → List String → Stored TenantCustomRole
unfolding write
store_create_role tenant name description permissions =
    write 17 (refused_role tenant name) (λ db. new_role db tenant name description permissions)
      (with_role tenant name description permissions)

abbrev pub role_update : ℕ → ℕ → UpdateCustomRoleRequest → TenantCustomRole → TenantCustomRole
role_update id now req r =
    if r.id == id
    then record r {
      name = given_or r.name req.name;
      description = given_or r.description req.description;
      permissions = given_or r.permissions req.permissions;
      updated_at = now;
    }
    else r

-- The name is looked for in the tenant of the role.
abbrev role_clashes : UpdateCustomRoleRequest → ℕ → List TenantCustomRole → Bool
role_clashes req id roles = elim (req.name) [
  | none ↦ false
  | some name ↦ elim (find_role id roles) [
    | none ↦ false
    | some r ↦ role_name_used r.tenant_id name id roles
  ]
]

abbrev pub refused_role_update : ℕ → UpdateCustomRoleRequest → TenantDb → Option TenantError
refused_role_update id req db = refuse_if (role_clashes req id db.roles) role_name_taken

unfoldable pub update_role_row : ℕ → UpdateCustomRoleRequest → Stored (Unit {0})
unfolding write
update_role_row id req =
    write 18 (refused_role_update id req) (λ db. tt)
      (λ db. record db { roles = map (role_update id db.now req) db.roles })

unfoldable pub store_update_role : ℕ → UpdateCustomRoleRequest → Stored TenantCustomRole
unfolding get_role update_role_row
store_update_role id req = do get_role id; update_role_row id req; get_role id

abbrev pub refused_role_delete : ℕ → TenantDb → Option TenantError
refused_role_delete id db = refuse_if (not (is_some (find_role id db.roles))) role_missing

unfoldable pub store_delete_role : ℕ → Stored (Unit {0})
unfolding write
store_delete_role id =
    write 19 (refused_role_delete id) (λ db. tt)
      (λ db. record db { roles = keep (λ r. not (r.id == id)) db.roles })
