-- ===== src/Tenants/Readers.antt =====
-- Who may read a tenant, its members and its roles (internal/api/handlers/tenant.go).
use philotes.Common.{
  ℕ, true, not, ◌≡◌, refl, sym, ◌∙◌, subst, ◌⊎◌, inl, inr, Option, none, some, is_some,
}
use philotes.Common.Actions.{
  Answer, done, raised, some_or, Ends, Meets, Meets-pure, Meets-raise, Meets-if, Meets-bind,
  Meets-with_error, Meets-given, Meets-weaken, ◌>>=◌, ◌>>◌,
}
use mathlib.Core.Option.{some_inj}
use philotes.Tenants.{User, is_global_admin, TenantMember, TenantDb}
use philotes.Tenants.Store.{find_member, store_is_member}
use philotes.Tenants.Service.{is_member}
use philotes.Tenants.Handlers.{
  Reply, Handler, error_status, require_member, handle_get, handle_list_members, handle_list_roles,
  Call, get_call, list_members_call, list_roles_call, create_call, list_call, update_call,
  delete_call, add_member_call, update_member_call, remove_member_call, create_role_call,
  update_role_call, delete_role_call, serve,
}
use philotes.Tenants.Reads.{Meets-query}
use philotes.Tenants.Permit.{SameMembers, frame-SameMembers, is_there}
use philotes.Tenants.Writes.{some_or_none}

-- The tenant whose data a request reads.
abbrev pub tenant_read : Call → Option ℕ
tenant_read (get_call path) = path
tenant_read (list_members_call path) = path
tenant_read (list_roles_call path) = path
tenant_read _ = none

-- A global admin, or a member of the tenant.
abbrev pub MayRead : User → ℕ → TenantDb → Type 0
MayRead user tenant db =
    (is_global_admin user.role ≡ true)
    ⊎ ((m : TenantMember) × (find_member tenant user.id db.members ≡ some m))

abbrev pub Reader : Option User → ℕ → TenantDb → Type 0
Reader auth tenant db = (user : User) × (auth ≡ some user) × MayRead user tenant db

constant-Ends :
    {A : Type 0} (K : Type 0) (r : Answer ℕ A × TenantDb) → K → Ends (λ a s. K) (λ s. Unit {0}) r
constant-Ends K (done a, s) k = k
constant-Ends K (raised x, s) k = tt

Meets-constant :
    {A : Type 0} {K : Type 0} (m : Handler A) → Meets (λ s. K) m (λ a s. K) (λ s. Unit {0})
Meets-constant {K} m = record { at = λ s k. constant-Ends K (m s) k }

module _ (a : TenantDb) (auth : Option User) (path : Option ℕ) (tenant : ℕ)
    (named : path ≡ some tenant) where
  Meets-membership :
      (user : User) (id : ℕ)
      → Meets (SameMembers a) (require_member user id) (λ u s. MayRead user id a) (λ s. Unit {0})
  unfolding require_member is_member store_is_member
  Meets-membership user id =
      Meets-if (is_global_admin user.role) _ _ (λ global. Meets-pure tt (λ s h. inl global))
        (λ _.
          Meets-bind _ _
            (Meets-with_error error_status _ (
              Meets-query (frame-SameMembers a) 10
                (λ db. is_some (find_member id user.id db.members))))
            (λ found.
              Meets-if (not found) _ _ (λ _. Meets-raise 403 (λ s h. tt))
                (λ is. Meets-pure tt (λ s h. inr (
                  is_there (find_member id user.id a.members) found
                    (subst (λ ms. found ≡ is_some (find_member id user.id ms)) h.0 h.1) is)))))

  -- What follows on the check is any handler.
  Meets-Reader :
      (rest : User → ℕ → Handler (ℕ × Reply))
      → Meets
          (SameMembers a)
          (some_or 401 auth >>= λ user.
            some_or 400 path >>= λ id. require_member user id >> rest user id)
          (λ reply s. Reader auth tenant a)
          (λ s. Unit {0})
  Meets-Reader rest =
      Meets-given 401 auth _ (λ s h. tt)
        (λ user e.
          Meets-given 400 path _ (λ s h. tt)
            (λ id e'.
              Meets-bind {Q = λ u s. Reader auth tenant a} _ _
                (Meets-weaken (Meets-membership user id) (λ u s may.
                  (user, e, subst (λ t. MayRead user t a) (some_inj.0 (sym e' ∙ named)) may)))
                (λ u. Meets-constant (rest user id))))

found_by :
    (auth : Option User) (tenant : ℕ) (m : Handler (ℕ × Reply)) (db db' : TenantDb)
    (reply : ℕ × Reply)
    → Meets (SameMembers db) m (λ r s. Reader auth tenant db) (λ s. Unit {0})
    → m db ≡ (done reply, db')
    → Reader auth tenant db
found_by auth tenant m db db' reply k e =
    subst (Ends (λ r s. Reader auth tenant db) (λ s. Unit {0})) e (k.at db refl)

-- If a request for a tenant, for its members or for its custom roles is answered without an error, then it comes
-- from a user who has signed in and who is a member of that tenant or a global admin.
pub serve-Reader :
    (auth : Option User) (call : Call) (tenant : ℕ) (db db' : TenantDb) (reply : ℕ × Reply)
    → tenant_read call ≡ some tenant
    → serve auth call db ≡ (done reply, db')
    → Reader auth tenant db
unfolding serve handle_get handle_list_members handle_list_roles
serve-Reader auth (get_call path) t db db' r n e =
    found_by auth t _ db db' r (Meets-Reader db auth path t n _) e
serve-Reader auth (list_members_call path) t db db' r n e =
    found_by auth t _ db db' r (Meets-Reader db auth path t n _) e
serve-Reader auth (list_roles_call path) t db db' r n e =
    found_by auth t _ db db' r (Meets-Reader db auth path t n _) e
serve-Reader auth (create_call b) t db db' r n e = absurd (some_or_none t (sym n))
serve-Reader auth list_call t db db' r n e = absurd (some_or_none t (sym n))
serve-Reader auth (update_call p b) t db db' r n e = absurd (some_or_none t (sym n))
serve-Reader auth (delete_call p) t db db' r n e = absurd (some_or_none t (sym n))
serve-Reader auth (add_member_call p b) t db db' r n e = absurd (some_or_none t (sym n))
serve-Reader auth (update_member_call p u b) t db db' r n e = absurd (some_or_none t (sym n))
serve-Reader auth (remove_member_call p u) t db db' r n e = absurd (some_or_none t (sym n))
serve-Reader auth (create_role_call p b) t db db' r n e = absurd (some_or_none t (sym n))
serve-Reader auth (update_role_call p o b) t db db' r n e = absurd (some_or_none t (sym n))
serve-Reader auth (delete_role_call p o) t db db' r n e = absurd (some_or_none t (sym n))
