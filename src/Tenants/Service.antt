-- ===== src/Tenants/Service.antt =====
-- internal/api/services/tenant.go: the operations on tenants, members and custom roles. A number says which
-- message wraps the error of a repository.
use Prim.Native.String.{String}
use philotes.Common.{
  ℕ, Bool, false, not, none, some, List, [], ◌∷◌, ◌++◌, keep, length, leb, ◌==◌, if◌then◌else◌,
}
use philotes.Common.Actions.{pure, raise, with_error, ◌>>=◌, ◌>>◌}
use philotes.Tenants.{
  TenantRole, is_tenant_admin, tenant_role_permissions, Tenant, TenantMember, TenantCustomRole,
  TenantError, tenant_missing, member_missing, user_missing, role_missing, slug_taken,
  member_exists, role_name_taken, wrapped_error, invalid, not_found, conflict, cannot_remove_owner,
  cannot_demote_last_admin, cannot_remove_last_admin, Stored,
}
use philotes.Tenants.Requests.{
  CreateTenantRequest, UpdateTenantRequest, AddMemberRequest, UpdateMemberRequest,
  CreateCustomRoleRequest, UpdateCustomRoleRequest, has_text, validate_create, validate_update,
  validate_add_member, validate_update_member, validate_create_role, validate_update_role,
}
use philotes.Tenants.Store.{
  get_tenant, get_tenant_by_slug, list_tenants, list_tenants_by_user, store_update_tenant,
  store_delete_tenant, store_add_member, store_get_member, store_list_members, store_update_member,
  store_remove_member, store_is_member, store_get_member_role, create_with_owner, get_role,
  list_roles_by_tenant, store_create_role, store_update_role, store_delete_role, get_user,
}

-- `errors.Is` at the errors of a repository, after each kind of call.
abbrev pub tenant_error : ℕ → TenantError → TenantError
tenant_error n tenant_missing = not_found "tenant"
tenant_error n slug_taken = conflict "slug"
tenant_error n e = wrapped_error n e

abbrev pub user_error : ℕ → TenantError → TenantError
user_error n user_missing = not_found "user"
user_error n e = wrapped_error n e

abbrev pub member_error : ℕ → TenantError → TenantError
member_error n member_missing = not_found "member"
member_error n member_exists = conflict "member"
member_error n e = wrapped_error n e

abbrev pub role_error : ℕ → TenantError → TenantError
role_error n role_missing = not_found "role"
role_error n role_name_taken = conflict "role"
role_error n e = wrapped_error n e

-- The fields of a request that are wrong.
abbrev pub validated : List String → Stored (Unit {0})
validated [] = pure tt
validated (f ∷ fs) = raise (invalid (f ∷ fs))

unfoldable pub create : CreateTenantRequest → ℕ → Stored Tenant
unfolding validate_create create_with_owner
create req creator = do
  validated (validate_create req)
  made ← with_error (tenant_error 1) (create_with_owner req.name req.slug creator req.settings)
  pure made.0

unfoldable pub get_by_id : ℕ → Stored Tenant
unfolding get_tenant
get_by_id id = with_error (tenant_error 2) (get_tenant id)

unfoldable pub get_by_slug : String → Stored Tenant
unfolding get_tenant_by_slug
get_by_slug slug = with_error (tenant_error 3) (get_tenant_by_slug slug)

unfoldable pub list : Stored (List Tenant)
unfolding list_tenants
list = with_error (wrapped_error 4) list_tenants

unfoldable pub list_by_user : ℕ → Stored (List Tenant)
unfolding list_tenants_by_user
list_by_user user = with_error (wrapped_error 5) (list_tenants_by_user user)

unfoldable pub update : ℕ → UpdateTenantRequest → Stored Tenant
unfolding validate_update store_update_tenant
update id req = do
  validated (validate_update req)
  with_error (tenant_error 6) (store_update_tenant id req)

unfoldable pub delete : ℕ → Stored (Unit {0})
unfolding store_delete_tenant
delete id = with_error (tenant_error 7) (store_delete_tenant id)

unfoldable pub add_member : ℕ → AddMemberRequest → Stored TenantMember
unfolding validate_add_member get_by_id get_user store_add_member
add_member tenant req = do
  validated (validate_add_member req)
  get_by_id tenant
  with_error (user_error 8) (get_user (req.user_id))
  with_error (member_error 9) (store_add_member tenant req.user_id req.role req.custom_permissions)

unfoldable pub get_member : ℕ → ℕ → Stored TenantMember
unfolding store_get_member
get_member tenant user = with_error (member_error 10) (store_get_member tenant user)

unfoldable pub list_members : ℕ → Stored (List TenantMember)
unfolding get_by_id store_list_members
list_members tenant = do get_by_id tenant; with_error (wrapped_error 11) (store_list_members tenant)

abbrev pub is_admin_member : TenantMember → Bool
is_admin_member m = is_tenant_admin (m.role)

-- The number of admins in a list of members.
abbrev pub admin_count : List TenantMember → ℕ
admin_count ms = length (keep is_admin_member ms)

-- The refusal that leaves an admin, given the member whom a call would take out of the admins.
unfoldable pub keep_an_admin : TenantError → ℕ → TenantMember → Stored (Unit {0})
unfolding store_list_members
keep_an_admin refusal tenant current =
    if is_admin_member current
    then (do
      members ← with_error (wrapped_error 11) (store_list_members tenant)
      if leb (admin_count members) 1 then raise refusal else pure tt)
    else pure tt

-- Whether a request takes a role away from an admin.
abbrev pub demotes : UpdateMemberRequest → Bool
demotes req = elim (req.role) [ none ↦ false | some role ↦ not (is_tenant_admin role) ]

unfoldable pub update_member : ℕ → ℕ → UpdateMemberRequest → Stored TenantMember
unfolding validate_update_member get_member keep_an_admin store_update_member
update_member tenant user req = do
  validated (validate_update_member req)
  if demotes req
      then (do
        current ← get_member tenant user
        keep_an_admin cannot_demote_last_admin tenant current)
      else pure tt
  with_error (member_error 12) (store_update_member tenant user req)

abbrev pub is_owner : ℕ → Tenant → Bool
is_owner user t = elim (t.owner_user_id) [ none ↦ false | some owner ↦ owner == user ]

unfoldable pub remove_member : ℕ → ℕ → Stored (Unit {0})
unfolding get_by_id get_member keep_an_admin store_remove_member
remove_member tenant user = do
  t ← get_by_id tenant
  if is_owner user t then raise cannot_remove_owner else pure tt
  current ← get_member tenant user
  keep_an_admin cannot_remove_last_admin tenant current
  with_error (member_error 13) (store_remove_member tenant user)

unfoldable pub is_member : ℕ → ℕ → Stored Bool
unfolding store_is_member
is_member tenant user = store_is_member tenant user

unfoldable pub get_member_role : ℕ → ℕ → Stored TenantRole
unfolding store_get_member_role
get_member_role tenant user = with_error (member_error 14) (store_get_member_role tenant user)

-- The texts of the second list that are not in the first, behind it: a set of texts as a list.
unfoldable pub with_texts : List String → List String → List String
unfolding has_text
with_texts known [] = known
with_texts known (p ∷ ps) = with_texts (if has_text p known then known else known ++ (p ∷ [])) ps

-- The permissions of the role and those of the member.
abbrev pub member_permissions : TenantMember → List String
unfolding with_texts
member_permissions m = with_texts (tenant_role_permissions m.role) (m.custom_permissions)

unfoldable pub get_member_permissions : ℕ → ℕ → Stored (List String)
unfolding get_member with_texts
get_member_permissions tenant user = do
  member ← get_member tenant user
  pure (member_permissions member)

unfoldable pub create_custom_role : ℕ → CreateCustomRoleRequest → Stored TenantCustomRole
unfolding validate_create_role get_by_id store_create_role
create_custom_role tenant req = do
  validated (validate_create_role req)
  get_by_id tenant
  with_error (role_error 15) (store_create_role tenant req.name req.description req.permissions)

unfoldable pub get_custom_role : ℕ → Stored TenantCustomRole
unfolding get_role
get_custom_role id = with_error (role_error 16) (get_role id)

unfoldable pub list_custom_roles : ℕ → Stored (List TenantCustomRole)
unfolding get_by_id list_roles_by_tenant
list_custom_roles tenant = do
  get_by_id tenant
  with_error (wrapped_error 17) (list_roles_by_tenant tenant)

unfoldable pub update_custom_role : ℕ → UpdateCustomRoleRequest → Stored TenantCustomRole
unfolding validate_update_role store_update_role
update_custom_role id req = do
  validated (validate_update_role req)
  with_error (role_error 18) (store_update_role id req)

unfoldable pub delete_custom_role : ℕ → Stored (Unit {0})
unfolding store_delete_role
delete_custom_role id = with_error (role_error 19) (store_delete_role id)

-- The tenant with the ID 00000000-0000-0000-0000-000000000001.
unfoldable pub get_default_tenant : Stored Tenant
unfolding get_by_id
get_default_tenant = get_by_id 1
