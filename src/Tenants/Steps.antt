-- ===== src/Tenants/Steps.antt =====
-- The routes as steps on the tables: a predicate that every allowed write keeps, or makes, holds when a
-- request ends.
use philotes.Common.{
  Option, ℕ, Bool, true, false, not, ◌||◌, ◌≡◌, refl, ◌⊎◌, inl, inr, none, some, map, keep, ◌==◌,
  is_some, arith,
}
use philotes.Common.Actions.{Meets, Meets-pure, Meets-raise, Meets-if, Meets-bind, Meets-with_error}
use philotes.Tenants.{
  is_tenant_admin, User, is_global_admin, Tenant, TenantMember, TenantCustomRole, member_missing,
  TenantDb,
}
use philotes.Tenants.Requests.{
  CreateTenantRequest, UpdateTenantRequest, AddMemberRequest, UpdateMemberRequest,
  CreateCustomRoleRequest, UpdateCustomRoleRequest,
}
use philotes.Tenants.Store.{
  find_tenant, find_member, find_role, tenant_update, without_tenant, with_member, member_update,
  is_membership, with_role, role_update, store_is_member, store_get_member_role,
}
use philotes.Tenants.Service.{
  is_member, get_member_role, get_custom_role, demotes, is_owner, member_error, role_error,
}
use philotes.Tenants.Handlers.{
  Call, create_call, delete_call, update_call, add_member_call, update_member_call,
  remove_member_call, create_role_call, update_role_call, delete_role_call, error_status,
  require_member, require_admin, require_role_in,
}
use philotes.Tenants.Reads.{Frame, Meets-query, Meets-found, Meets-get_role}
use philotes.Tenants.Writes.{with_tenants, with_members, with_roles, Spared}
use philotes.Tenants.Creates.{with_tenant_and_owner}

-- A global admin, or an admin of the tenant.
abbrev pub MayAdminister : User → ℕ → TenantDb → Type 0
MayAdminister user tenant db =
    (is_global_admin user.role ≡ true)
    ⊎ ((m : TenantMember) × (find_member tenant user.id db.members ≡ some m)
        × (is_tenant_admin m.role ≡ true))

-- A global admin, or the owner of the tenant.
abbrev pub MayDelete : User → ℕ → TenantDb → Type 0
MayDelete user tenant db =
    (t : Tenant) × (find_tenant tenant db.tenants ≡ some t)
    × ((is_owner user.id t || is_global_admin user.role) ≡ true)

abbrev pub RoleIn : ℕ → ℕ → TenantDb → Type 0
RoleIn tenant id db =
    (r : TenantCustomRole) × (find_role id db.roles ≡ some r) × ((r.tenant_id == tenant) ≡ true)

-- The member of an update is not demoted, or is spared.
abbrev pub Demotable : ℕ → ℕ → UpdateMemberRequest → TenantDb → Type 0
Demotable tenant user req db =
    (demotes req ≡ false)
    ⊎ ((m : TenantMember) × (find_member tenant user db.members ≡ some m) × Spared tenant m db)

abbrev pub makes_tenant : Call → Bool
makes_tenant (create_call body) = true
makes_tenant _ = false

-- The tenant that a request deletes.
abbrev pub tenant_deleted : Call → Option ℕ
tenant_deleted (delete_call path) = path
tenant_deleted _ = none

-- The tenant that a request changes, with its members and its roles.
abbrev pub tenant_written : Call → Option ℕ
tenant_written (update_call path body) = path
tenant_written (add_member_call path body) = path
tenant_written (update_member_call path user body) = path
tenant_written (remove_member_call path user) = path
tenant_written (create_role_call path body) = path
tenant_written (update_role_call path role body) = path
tenant_written (delete_role_call path role) = path
tenant_written _ = none

-- The writes of the routes for a user, each with what the code has found out by then.
pub record Steps (I G : TenantDb → Type 0) (user : User) (call : Call) : Type 0 where
  pub creates :
      (req : CreateTenantRequest) (db : TenantDb)
      → makes_tenant call ≡ true
      → I db
      → find_member db.next_id user.id db.members ≡ none
      → G (with_tenant_and_owner req user.id db)
  pub updates :
      (id : ℕ) (req : UpdateTenantRequest) (db : TenantDb)
      → tenant_written call ≡ some id
      → I db
      → MayAdminister user id db
      → G (with_tenants db (map (tenant_update id db.now req) db.tenants))
  pub deletes :
      (id : ℕ) (db : TenantDb)
      → tenant_deleted call ≡ some id
      → I db
      → MayDelete user id db
      → G (without_tenant id db)
  pub adds_member :
      (id : ℕ) (req : AddMemberRequest) (db : TenantDb)
      → tenant_written call ≡ some id
      → I db
      → MayAdminister user id db
      → find_member id req.user_id db.members ≡ none
      → G (with_member id req.user_id req.role req.custom_permissions db)
  pub updates_member :
      (id other : ℕ) (req : UpdateMemberRequest) (db : TenantDb)
      → tenant_written call ≡ some id
      → I db
      → MayAdminister user id db
      → Demotable id other req db
      → G (with_members db (map (member_update id other db.now req) db.members))
  pub removes_member :
      (id other : ℕ) (db : TenantDb) (m : TenantMember)
      → tenant_written call ≡ some id
      → I db
      → MayAdminister user id db
      → find_member id other db.members ≡ some m
      → Spared id m db
      → G (with_members db (keep (λ m. not (is_membership id other m)) db.members))
  pub creates_role :
      (id : ℕ) (req : CreateCustomRoleRequest) (db : TenantDb)
      → tenant_written call ≡ some id
      → I db
      → MayAdminister user id db
      → G (with_role id req.name req.description req.permissions db)
  pub updates_role :
      (id role : ℕ) (req : UpdateCustomRoleRequest) (db : TenantDb)
      → tenant_written call ≡ some id
      → I db
      → MayAdminister user id db
      → RoleIn id role db
      → G (with_roles db (map (role_update role db.now req) db.roles))
  pub deletes_role :
      (id role : ℕ) (db : TenantDb)
      → tenant_written call ≡ some id
      → I db
      → MayAdminister user id db
      → RoleIn id role db
      → G (with_roles db (keep (λ r. not (r.id == role)) db.roles))

pub negated : (b : Bool) → not b ≡ false → b ≡ true
negated b h = ground (arith, h)

module _ {I G : TenantDb → Type 0} (f : Frame I G) where
  pub Meets-require_admin :
      (user : User) (tenant : ℕ)
      → Meets I (require_admin user tenant) (λ u s. I s × MayAdminister user tenant s) G
  unfolding require_admin get_member_role store_get_member_role
  Meets-require_admin user tenant =
      Meets-if (is_global_admin user.role) _ _ (λ yes. Meets-pure tt (λ s h. (h, inl yes)))
        (λ no.
          Meets-bind
            {Q = λ role s.
              I s
              × ((m : TenantMember) × (find_member tenant user.id s.members ≡ some m)
                  × (m.role ≡ role))}
            _ _
            (Meets-with_error error_status _ (
              Meets-with_error (member_error 14) _ (
                Meets-bind _ _ (Meets-query f 11 (λ db. find_member tenant user.id db.members))
                  (λ o.
                    Meets-bind _ _
                      (Meets-found f member_missing (λ db. find_member tenant user.id db.members) o)
                      (λ m. Meets-pure (m.role) (λ s h. (h.0, (m, h.1, refl))))))))
            (λ role.
              Meets-if (not (is_tenant_admin role)) _ _ (λ _. Meets-raise 403 (λ s h. f.ends s h.0))
                (λ is. Meets-pure tt (λ s h.
                  (h.0, inr (h.1.0, h.1.1, rw (h.1.2) (negated (is_tenant_admin role) is)))))))

  pub Meets-require_member :
      (user : User) (tenant : ℕ) → Meets I (require_member user tenant) (λ u s. I s) G
  unfolding require_member is_member store_is_member
  Meets-require_member user tenant =
      Meets-if (is_global_admin user.role) _ _ (λ yes. Meets-pure tt (λ s h. h))
        (λ no.
          Meets-bind _ _
            (Meets-with_error error_status _
              (Meets-query f 10 (λ db. is_some (find_member tenant user.id db.members))))
            (λ found.
              Meets-if (not found) _ _ (λ _. Meets-raise 403 (λ s h. f.ends s h.0))
                (λ _. Meets-pure tt (λ s h. h.0))))

  pub Meets-require_role_in :
      (tenant id : ℕ) → Meets I (require_role_in tenant id) (λ u s. I s × RoleIn tenant id s) G
  unfolding require_role_in get_custom_role
  Meets-require_role_in tenant id =
      Meets-bind _ _
        (Meets-with_error error_status _ (Meets-with_error (role_error 16) _ (Meets-get_role f id)))
        (λ r.
          Meets-if (not (r.tenant_id == tenant)) _ _ (λ _. Meets-raise 404 (λ s h. f.ends s h.0))
            (λ is. Meets-pure tt (λ s h. (h.0, (r, h.1, negated (r.tenant_id == tenant) is)))))
