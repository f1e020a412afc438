-- ===== src/Tenants/Store/Members.antt =====
-- The statements on `tenant_members` (internal/api/repositories/tenant.go), and the user of a member.
use Prim.Native.String.{String}
use philotes.Common.{
  ℕ, ◌+◌, Bool, not, ◌&&◌, Option, none, some, List, [], ◌∷◌, ◌++◌, map, keep, elem, ◌==◌,
  if◌then◌else◌, is_some,
}
use philotes.Common.Actions.{pure, raise, some_or, ◌>>=◌, ◌>>◌}
use philotes.Tenants.{
  TenantRole, TenantMember, TenantError, member_missing, user_missing, member_exists, database,
  TenantDb, Stored,
}
use philotes.Tenants.Requests.{UpdateMemberRequest}
use philotes.Tenants.Store.Statements.{
  foreign_key, query, write, refuse_if, given_or, find_tenant, is_membership, find_member,
}

abbrev pub new_member : TenantDb → ℕ → ℕ → TenantRole → List String → TenantMember
new_member db tenant user role permissions = record {
  id = db.next_id;
  tenant_id = tenant;
  user_id = user;
  role = role;
  custom_permissions = permissions;
  created_at = db.now;
  updated_at = db.now;
}

abbrev pub with_member : ℕ → ℕ → TenantRole → List String → TenantDb → TenantDb
with_member tenant user role permissions db = record db {
  members = db.members ++ (new_member db tenant user role permissions ∷ []);
  next_id = db.next_id + 1;
}

abbrev pub refused_member : ℕ → ℕ → TenantDb → Option TenantError
refused_member tenant user db =
    if is_some (find_member tenant user db.members)
    then some member_exists
    else refuse_if (not (is_some (find_tenant tenant db.tenants) && elem user db.users))
        (database 5 foreign_key)

unfoldable pub store_add_member : ℕ → ℕ → TenantRole → List String → Stored TenantMember
unfolding write
store_add_member tenant user role permissions =
    write 5 (refused_member tenant user) (λ db. new_member db tenant user role permissions)
      (with_member tenant user role permissions)

unfoldable pub store_get_member : ℕ → ℕ → Stored TenantMember
unfolding query
store_get_member tenant user = do
  found ← query 6 (λ db. find_member tenant user db.members)
  some_or member_missing found

-- The members whose user exists, which the join with `users` asks for.
abbrev pub members_of : ℕ → TenantDb → List TenantMember
members_of tenant db = keep (λ m. m.tenant_id == tenant && elem m.user_id db.users) db.members

unfoldable pub store_list_members : ℕ → Stored (List TenantMember)
unfolding query
store_list_members tenant = query 7 (members_of tenant)

abbrev pub member_update : ℕ → ℕ → ℕ → UpdateMemberRequest → TenantMember → TenantMember
member_update tenant user now req m =
    if is_membership tenant user m
    then record m {
      role = given_or m.role req.role;
      custom_permissions = given_or m.custom_permissions req.custom_permissions;
      updated_at = now;
    }
    else m

unfoldable pub update_member_row : ℕ → ℕ → UpdateMemberRequest → Stored (Unit {0})
unfolding write
update_member_row tenant user req =
    write 8 (λ db. none) (λ db. tt)
      (λ db. record db { members = map (member_update tenant user db.now req) db.members })

unfoldable pub store_update_member : ℕ → ℕ → UpdateMemberRequest → Stored TenantMember
unfolding store_get_member update_member_row
store_update_member tenant user req = do
  store_get_member tenant user
  update_member_row tenant user req
  store_get_member tenant user

abbrev pub refused_removal : ℕ → ℕ → TenantDb → Option TenantError
refused_removal tenant user db =
    refuse_if (not (is_some (find_member tenant user db.members))) member_missing

unfoldable pub store_remove_member : ℕ → ℕ → Stored (Unit {0})
unfolding write
store_remove_member tenant user =
    write 9 (refused_removal tenant user) (λ db. tt)
      (λ db. record db { members = keep (λ m. not (is_membership tenant user m)) db.members })

unfoldable pub store_is_member : ℕ → ℕ → Stored Bool
unfolding query
store_is_member tenant user = query 10 (λ db. is_some (find_member tenant user db.members))

unfoldable pub store_get_member_role : ℕ → ℕ → Stored TenantRole
unfolding query
store_get_member_role tenant user = do
  found ← query 11 (λ db. find_member tenant user db.members)
  member ← some_or member_missing found
  pure (member.role)

-- `UserRepository.GetByID`, as far as the tenants use it.
unfoldable pub get_user : ℕ → Stored (Unit {0})
unfolding query
get_user id = do
  found ← query 20 (λ db. elem id db.users)
  if found then pure tt else raise user_missing
