-- ===== src/Tenants/Handlers.antt =====
-- internal/api/handlers/tenant.go: the routes on tenants, with who may call them. An error is its HTTP status;
-- what cannot be parsed, a path or a body, is `none`, and so is a request without a user.
use philotes.Common.{ℕ, Bool, not, ◌||◌, Option, List, ◌==◌, if◌then◌else◌}
use philotes.Common.Actions.{Action, pure, raise, some_or, with_error, ◌>>=◌, ◌>>◌}
use philotes.Tenants.{
  is_tenant_admin, User, is_global_admin, Tenant, TenantMember, TenantCustomRole, TenantError,
  wrapped_error, invalid, not_found, conflict, cannot_remove_owner, cannot_demote_last_admin,
  cannot_remove_last_admin, TenantDb, Stored,
}
use philotes.Tenants.Requests.{
  CreateTenantRequest, UpdateTenantRequest, AddMemberRequest, UpdateMemberRequest,
  CreateCustomRoleRequest, UpdateCustomRoleRequest,
}
use philotes.Tenants.Service.{
  create, get_by_id, list, list_by_user, update, delete, add_member, list_members, update_member,
  remove_member, is_member, get_member_role, create_custom_role, get_custom_role, list_custom_roles,
  update_custom_role, delete_custom_role, is_owner,
}

-- The body of an answer. The counts of the lists are their lengths.
pub data Reply : Type 0 where
  tenant_reply : Tenant → Reply
  tenants_reply : List Tenant → Reply
  member_reply : TenantMember → Reply
  members_reply : List TenantMember → Reply
  role_reply : TenantCustomRole → Reply
  roles_reply : List TenantCustomRole → Reply
  empty_reply : Reply

-- A handler, which gives a status and a body, or the status of an error.
abbrev pub Handler : Type 0 → Type 0
Handler A = Action ℕ TenantDb A

-- `respondWithError`: the status of an error of the service.
abbrev pub error_status : TenantError → ℕ
error_status (invalid fields) = 400
error_status (not_found resource) = 404
error_status (conflict resource) = 409
error_status cannot_remove_owner = 403
error_status cannot_demote_last_admin = 403
error_status cannot_remove_last_admin = 403
error_status (wrapped_error n e) = error_status e
error_status _ = 500

abbrev pub served : {A : Type 0} → Stored A → Handler A
served m = with_error error_status m

abbrev pub unless_refused : Bool → ℕ → Handler (Unit {0})
unless_refused refused status = if refused then raise status else pure tt

-- A member of the tenant, or a global admin.
unfoldable pub require_member : User → ℕ → Handler (Unit {0})
unfolding is_member
require_member user tenant =
    if is_global_admin user.role
    then pure tt
    else (do found ← served (is_member tenant user.id); unless_refused (not found) 403)

-- An admin of the tenant, or a global admin.
unfoldable pub require_admin : User → ℕ → Handler (Unit {0})
unfolding get_member_role
require_admin user tenant = if is_global_admin user.role then pure tt else (do
  role ← served (get_member_role tenant user.id)
  unless_refused (not (is_tenant_admin role)) 403)

-- A custom role that is in the tenant.
unfoldable pub require_role_in : ℕ → ℕ → Handler (Unit {0})
unfolding get_custom_role
require_role_in tenant id = do
  role ← served (get_custom_role id)
  unless_refused (not (role.tenant_id == tenant)) 404

unfoldable pub handle_create : Option User → Option CreateTenantRequest → Handler (ℕ × Reply)
unfolding create
handle_create auth body = do
  user ← some_or 401 auth
  req ← some_or 400 body
  tenant ← served (create req user.id)
  pure (201, tenant_reply tenant)

unfoldable pub handle_list : Option User → Handler (ℕ × Reply)
unfolding list list_by_user
handle_list auth = do
  user ← some_or 401 auth
  tenants ← served (if is_global_admin user.role then list else list_by_user user.id)
  pure (200, tenants_reply tenants)

unfoldable pub handle_get : Option User → Option ℕ → Handler (ℕ × Reply)
unfolding require_member get_by_id
handle_get auth path = do
  user ← some_or 401 auth
  id ← some_or 400 path
  require_member user id
  tenant ← served (get_by_id id)
  pure (200, tenant_reply tenant)

unfoldable pub handle_update :
    Option User → Option ℕ → Option UpdateTenantRequest → Handler (ℕ × Reply)
unfolding require_admin update
handle_update auth path body = do
  user ← some_or 401 auth
  id ← some_or 400 path
  require_admin user id
  req ← some_or 400 body
  tenant ← served (update id req)
  pure (200, tenant_reply tenant)

unfoldable pub handle_delete : Option User → Option ℕ → Handler (ℕ × Reply)
unfolding get_by_id delete
handle_delete auth path = do
  user ← some_or 401 auth
  id ← some_or 400 path
  tenant ← served (get_by_id id)
  unless_refused (not (is_owner user.id tenant || is_global_admin user.role)) 403
  served (delete id)
  pure (204, empty_reply)

unfoldable pub handle_list_members : Option User → Option ℕ → Handler (ℕ × Reply)
unfolding require_member list_members
handle_list_members auth path = do
  user ← some_or 401 auth
  id ← some_or 400 path
  require_member user id
  members ← served (list_members id)
  pure (200, members_reply members)

unfoldable pub handle_add_member :
    Option User → Option ℕ → Option AddMemberRequest → Handler (ℕ × Reply)
unfolding require_admin add_member
handle_add_member auth path body = do
  user ← some_or 401 auth
  id ← some_or 400 path
  require_admin user id
  req ← some_or 400 body
  member ← served (add_member id req)
  pure (201, member_reply member)

unfoldable pub handle_update_member :
    Option User → Option ℕ → Option ℕ → Option UpdateMemberRequest → Handler (ℕ × Reply)
unfolding require_admin update_member
handle_update_member auth path user_path body = do
  user ← some_or 401 auth
  id ← some_or 400 path
  user_id ← some_or 400 user_path
  require_admin user id
  req ← some_or 400 body
  member ← served (update_member id user_id req)
  pure (200, member_reply member)

unfoldable pub handle_remove_member : Option User → Option ℕ → Option ℕ → Handler (ℕ × Reply)
unfolding require_admin remove_member
handle_remove_member auth path user_path = do
  user ← some_or 401 auth
  id ← some_or 400 path
  user_id ← some_or 400 user_path
  require_admin user id
  served (remove_member id user_id)
  pure (204, empty_reply)

unfoldable pub handle_list_roles : Option User → Option ℕ → Handler (ℕ × Reply)
unfolding require_member list_custom_roles
handle_list_roles auth path = do
  user ← some_or 401 auth
  id ← some_or 400 path
  require_member user id
  roles ← served (list_custom_roles id)
  pure (200, roles_reply roles)

unfoldable pub handle_create_role :
    Option User → Option ℕ → Option CreateCustomRoleRequest → Handler (ℕ × Reply)
unfolding require_admin create_custom_role
handle_create_role auth path body = do
  user ← some_or 401 auth
  id ← some_or 400 path
  require_admin user id
  req ← some_or 400 body
  role ← served (create_custom_role id req)
  pure (201, role_reply role)

unfoldable pub handle_update_role :
    Option User → Option ℕ → Option ℕ → Option UpdateCustomRoleRequest → Handler (ℕ × Reply)
unfolding require_admin require_role_in update_custom_role
handle_update_role auth path role_path body = do
  user ← some_or 401 auth
  id ← some_or 400 path
  role_id ← some_or 400 role_path
  require_admin user id
  require_role_in id role_id
  req ← some_or 400 body
  role ← served (update_custom_role role_id req)
  pure (200, role_reply role)

unfoldable pub handle_delete_role : Option User → Option ℕ → Option ℕ → Handler (ℕ × Reply)
unfolding require_admin require_role_in delete_custom_role
handle_delete_role auth path role_path = do
  user ← some_or 401 auth
  id ← some_or 400 path
  role_id ← some_or 400 role_path
  require_admin user id
  require_role_in id role_id
  served (delete_custom_role role_id)
  pure (204, empty_reply)

-- The requests of the routes, with what is parsed from the path and the body.
pub data Call : Type 0 where
  create_call : Option CreateTenantRequest → Call
  list_call : Call
  get_call delete_call list_members_call list_roles_call : Option ℕ → Call
  update_call : Option ℕ → Option UpdateTenantRequest → Call
  add_member_call : Option ℕ → Option AddMemberRequest → Call
  update_member_call : Option ℕ → Option ℕ → Option UpdateMemberRequest → Call
  remove_member_call delete_role_call : Option ℕ → Option ℕ → Call
  create_role_call : Option ℕ → Option CreateCustomRoleRequest → Call
  update_role_call : Option ℕ → Option ℕ → Option UpdateCustomRoleRequest → Call

unfoldable pub serve : Option User → Call → Handler (ℕ × Reply)
unfolding handle_create handle_list handle_get handle_update handle_delete handle_list_members
    handle_add_member handle_update_member handle_remove_member handle_list_roles handle_create_role
    handle_update_role handle_delete_role
serve auth (create_call body) = handle_create auth body
serve auth list_call = handle_list auth
serve auth (get_call path) = handle_get auth path
serve auth (update_call path body) = handle_update auth path body
serve auth (delete_call path) = handle_delete auth path
serve auth (list_members_call path) = handle_list_members auth path
serve auth (add_member_call path body) = handle_add_member auth path body
serve auth (update_member_call path user body) = handle_update_member auth path user body
serve auth (remove_member_call path user) = handle_remove_member auth path user
serve auth (list_roles_call path) = handle_list_roles auth path
serve auth (create_role_call path body) = handle_create_role auth path body
serve auth (update_role_call path role body) = handle_update_role auth path role body
serve auth (delete_role_call path role) = handle_delete_role auth path role
