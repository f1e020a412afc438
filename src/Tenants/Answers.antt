-- ===== src/Tenants/Answers.antt =====
-- What a handler answers, and the handlers that only read.
use philotes.Common.{ℕ, ◌≡◌, Option, some, ◌==◌, keep}
use philotes.Common.Actions.{
  pure, some_or, ◌>>=◌, ◌>>◌, Meets, Meets-pure, Meets-bind, Meets-with_error, Meets-weaken,
  Meets-given,
}
use philotes.Tenants.{User, wrapped_error, TenantDb, Stored}
use philotes.Tenants.Store.{
  list_tenants, list_tenants_by_user, store_list_members, list_roles_by_tenant, members_of,
  is_in_tenant_of,
}
use philotes.Tenants.Service.{list, list_by_user, list_members, list_custom_roles}
use philotes.Tenants.Handlers.{Reply, Handler, served, require_member, error_status}
use philotes.Tenants.Reads.{Frame, knowing, Meets-query, Meets-get_by_id}
use philotes.Tenants.Steps.{Meets-require_member}

abbrev pub Ended : (TenantDb → Type 0) → ℕ × Reply → TenantDb → Type 0
Ended G reply s = G s

-- What a call of the service answers.
pub Meets-answer :
    {P G : TenantDb → Type 0} {A : Type 0} (status : ℕ) (reply : A → Reply) (m : Stored A)
    → Meets P m (λ a s. G s) G
    → Meets P (served m >>= λ a. pure (status, reply a)) (Ended G) G
Meets-answer status reply m k =
    Meets-bind _ _ (Meets-with_error error_status _ k) (λ a. Meets-pure _ (λ s h. h))

module _ {I G : TenantDb → Type 0} (f : Frame I G) where
  pub Meets-list : Meets I list (λ ts s. I s) G
  unfolding list list_tenants
  Meets-list =
      Meets-with_error (wrapped_error 4) _
        (Meets-weaken (Meets-query f 2 (λ db. db.tenants)) (λ a s h. h.0))

  pub Meets-list_by_user : (user : ℕ) → Meets I (list_by_user user) (λ ts s. I s) G
  unfolding list_by_user list_tenants_by_user
  Meets-list_by_user user = Meets-with_error (wrapped_error 5) _ (
      Meets-weaken (Meets-query f 2 (λ db. keep (is_in_tenant_of db.members user) db.tenants))
        (λ a s h. h.0))

  pub Meets-list_members : (tenant : ℕ) → Meets I (list_members tenant) (λ ms s. I s) G
  unfolding list_members store_list_members
  Meets-list_members tenant = Meets-bind _ _ (Meets-get_by_id f tenant) (λ t.
      Meets-with_error (wrapped_error 11) _ (
        Meets-weaken (Meets-query (knowing f _ (λ db fs h. h)) 7 (members_of tenant))
          (λ a s h. h.0.0)))

  pub Meets-list_custom_roles : (tenant : ℕ) → Meets I (list_custom_roles tenant) (λ ms s. I s) G
  unfolding list_custom_roles list_roles_by_tenant
  Meets-list_custom_roles tenant = Meets-bind _ _ (Meets-get_by_id f tenant) (λ t.
      Meets-with_error (wrapped_error 17) _ (
        Meets-weaken
          (Meets-query (knowing f _ (λ db fs h. h)) 16
            (λ db. keep (λ r. r.tenant_id == tenant) db.roles))
          (λ a s h. h.0.0)))

  -- A user who has signed in, and a tenant.
  pub Meets-signed_in :
      (auth : Option User) (path : Option ℕ) (k : User → ℕ → Handler (ℕ × Reply))
      → ((user : User) (id : ℕ)
          → auth ≡ some user
          → path ≡ some id
          → Meets I (k user id) (Ended G) G)
      → Meets I (some_or 401 auth >>= λ user. some_or 400 path >>= λ id. k user id) (Ended G) G
  Meets-signed_in auth path k m =
      Meets-given 401 auth _ f.ends
        (λ user e. Meets-given 400 path _ f.ends (λ id e'. m user id e e'))

  -- A read of a member.
  pub Meets-read :
      (auth : Option User) (path : Option ℕ) {A : Type 0} (read : ℕ → Stored A) (reply : A → Reply)
      → ((id : ℕ) → Meets I (read id) (λ a s. I s) G)
      → Meets I
          (some_or 401 auth >>= λ user. some_or 400 path >>= λ id.
            require_member user id >> (served (read id) >>= λ a. pure (200, reply a)))
          (Ended G)
          G
  Meets-read auth path read reply m = Meets-signed_in auth path _ (λ user id _ _.
      Meets-bind _ _ (Meets-require_member f user id) (λ u.
        Meets-bind _ _ (Meets-with_error error_status _ (m id))
          (λ a. Meets-pure _ (λ s h. f.ends s h))))
