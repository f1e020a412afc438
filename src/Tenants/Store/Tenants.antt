-- ===== src/Tenants/Store/Tenants.antt =====
-- The statements on `tenants` (internal/api/repositories/tenant.go).
use Prim.Native.String.{String}
use text.Mathlib.Text.{◌==◌ as str_eq}
use philotes.Common.{
  ℕ, Bool, false, not, ◌&&◌, Option, none, some, List, [], ◌∷◌, map, keep, ◌==◌, if◌then◌else◌,
  is_some,
}
use philotes.Common.Actions.{some_or, ◌>>=◌, ◌>>◌}
use philotes.Tenants.{
  Tenant, TenantMember, TenantError, tenant_missing, slug_taken, TenantDb, Stored,
}
use philotes.Tenants.Requests.{UpdateTenantRequest}
use philotes.Tenants.Store.Statements.{
  query, write, refuse_if, given_or, find_tenant, slug_used, find_member,
}

unfoldable pub get_tenant : ℕ → Stored Tenant
unfolding query
get_tenant id = do found ← query 1 (λ db. find_tenant id db.tenants); some_or tenant_missing found

abbrev find_slug : String → List Tenant → Option Tenant
find_slug slug [] = none
find_slug slug (t ∷ ts) =
    let rest = find_slug slug ts in if str_eq t.slug slug then some t else rest

unfoldable pub get_tenant_by_slug : String → Stored Tenant
unfolding query
get_tenant_by_slug slug = do
  found ← query 1 (λ db. find_slug slug db.tenants)
  some_or tenant_missing found

unfoldable pub list_tenants : Stored (List Tenant)
unfolding query
list_tenants = query 2 (λ db. db.tenants)

abbrev pub is_in_tenant_of : List TenantMember → ℕ → Tenant → Bool
is_in_tenant_of members user t = t.is_active && is_some (find_member t.id user members)

-- The active tenants of a user.
unfoldable pub list_tenants_by_user : ℕ → Stored (List Tenant)
unfolding query
list_tenants_by_user user = query 2 (λ db. keep (is_in_tenant_of db.members user) db.tenants)

abbrev pub tenant_update : ℕ → ℕ → UpdateTenantRequest → Tenant → Tenant
tenant_update id now req t =
    if t.id == id
    then record t {
      name = given_or t.name req.name;
      slug = given_or t.slug req.slug;
      is_active = given_or t.is_active req.is_active;
      settings = given_or t.settings req.settings;
      updated_at = now;
    }
    else t

abbrev clashes : UpdateTenantRequest → ℕ → List Tenant → Bool
clashes req id ts = elim (req.slug) [ none ↦ false | some slug ↦ slug_used slug id ts ]

abbrev pub refused_update : ℕ → UpdateTenantRequest → TenantDb → Option TenantError
refused_update id req db = refuse_if (clashes req id db.tenants) slug_taken

unfoldable pub update_tenant_row : ℕ → UpdateTenantRequest → Stored (Unit {0})
unfolding write
update_tenant_row id req =
    write 3 (refused_update id req) (λ db. tt)
      (λ db. record db { tenants = map (tenant_update id db.now req) db.tenants })

unfoldable pub store_update_tenant : ℕ → UpdateTenantRequest → Stored Tenant
unfolding get_tenant update_tenant_row
store_update_tenant id req = do get_tenant id; update_tenant_row id req; get_tenant id

-- The members and the roles of a tenant go with it.
abbrev pub without_tenant : ℕ → TenantDb → TenantDb
without_tenant id db = record db {
  tenants = keep (λ t. not (t.id == id)) db.tenants;
  members = keep (λ m. not (m.tenant_id == id)) db.members;
  roles = keep (λ r. not (r.tenant_id == id)) db.roles;
}

abbrev pub refused_delete : ℕ → TenantDb → Option TenantError
refused_delete id db = refuse_if (not (is_some (find_tenant id db.tenants))) tenant_missing

unfoldable pub store_delete_tenant : ℕ → Stored (Unit {0})
unfolding write
store_delete_tenant id = write 4 (refused_delete id) (λ db. tt) (without_tenant id)
