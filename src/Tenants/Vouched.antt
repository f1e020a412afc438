-- ===== src/Tenants/Vouched.antt =====
-- What each middleware leaves of a request: the context of a tenant is vouched for.
use Prim.Native.String.{String}
use philotes.Common.{
  ℕ, true, not, ◌&&◌, ◌≡◌, refl, sym, subst, ◌∙◌, ◌⊎◌, inl, inr, Option, none, some, List, arith,
  is_some,
}
use mathlib.Core.Option.{some_inj}
use philotes.Tenants.Writes.{some_or_none}
use philotes.Common.Actions.{
  pure, raise, Meets, Meets-pure, Meets-raise, Meets-if, Meets-bind, Meets-with_error, Meets-weaken,
  Meets-given, ◌>>=◌,
}
use philotes.Tenants.{
  admin, viewer, User, is_global_admin, member_missing, TenantMember, tenant_role_permissions,
  TenantDb,
}
use philotes.Tenants.Requests.{has_text}
use philotes.Tenants.Store.{find_member, store_is_member, store_get_member_role}
use philotes.Tenants.Service.{
  is_member, get_member_role, get_member_permissions, member_permissions, member_error,
}
use philotes.Tenants.Reads.{Frame, Meets-query, Meets-found, Meets-get_member}
use philotes.Tenants.Steps.{negated}
use philotes.Tenants.Access.{
  TenantConfig, tenant_text, TenantContext, RequestKeys, Headers, extract_tenant, member_context,
  require_tenant, require_tenant_permission,
}
use philotes.Tenants.Permit.{
  no_keys, permit, MayPass, across, as_member, SameMembers, frame-SameMembers, Meets-or_default,
  nobody, holding, is_there,
}

module _ (cfg : TenantConfig) (headers : Headers) (a : TenantDb) (user : User) where
  abbrev IsThere : ℕ → TenantDb → Type 0
  IsThere tenant s =
      SameMembers a s × ((m : TenantMember) × (find_member tenant user.id a.members ≡ some m))

  frame-IsThere : (tenant : ℕ) → Frame (IsThere tenant) (IsThere tenant)
  frame-IsThere tenant = record { past = λ s fs h. h; past_end = λ s fs h. h; ends = λ s h. h }

  Meets-role :
      (tenant : ℕ)
      → Meets
          (IsThere tenant)
          (get_member_role tenant user.id)
          (λ r s. IsThere tenant s)
          (IsThere tenant)
  unfolding get_member_role store_get_member_role
  Meets-role tenant = Meets-with_error (member_error 14) _ (
      Meets-bind _ _
        (Meets-query (frame-IsThere tenant) 11 (λ db. find_member tenant user.id db.members))
        (λ o.
          Meets-bind _ _
            (Meets-weaken
              (Meets-found (frame-IsThere tenant) member_missing
                (λ db. find_member tenant user.id db.members) o)
              (λ m s h. h.0))
            (λ m. Meets-pure (m.role) (λ s h. h))))

  abbrev Permissions : ℕ → List String → TenantDb → Type 0
  Permissions tenant ps s =
      (m : TenantMember) × (find_member tenant user.id a.members ≡ some m)
      × ((ps ≡ member_permissions m) ⊎ (ps ≡ tenant_role_permissions viewer))

  Meets-Permissions :
      (tenant : ℕ)
      → Meets
          (IsThere tenant)
          (get_member_permissions tenant user.id)
          (Permissions tenant)
          (IsThere tenant)
  unfolding get_member_permissions
  Meets-Permissions tenant =
      Meets-bind _ _ (Meets-get_member (frame-IsThere tenant) tenant user.id) (λ m.
        Meets-pure (member_permissions m)
          (λ s h. (m, subst (λ ms. find_member tenant user.id ms ≡ some m) (h.0.0) h.1, inl refl)))

  Meets-member_context :
      (tenant : ℕ)
      → Meets
          (SameMembers a)
          (member_context tenant user.id)
          (λ c s. (c.tenant_id ≡ tenant) × Permissions tenant c.permissions s)
          (λ s. Unit {0})
  unfolding member_context is_member store_is_member
  Meets-member_context tenant =
      Meets-bind _ _
        (Meets-with_error (λ e. 500) _
          (Meets-query (frame-SameMembers a) 10
            (λ db. is_some (find_member tenant user.id db.members))))
        (λ found.
          Meets-bind {Q = λ u s. IsThere tenant s} _ _
            (Meets-if (not found) _ _ (λ _. Meets-raise 403 (λ s h. tt))
              (λ is. Meets-pure tt (λ s h. (
                h.0,
                is_there (find_member tenant user.id a.members) found
                    (subst (λ ms. found ≡ is_some (find_member tenant user.id ms)) h.0 h.1) is,
              ))))
            (λ u.
              Meets-bind _ _
                (Meets-or_default viewer _ (Meets-with_error (λ e. 500) _ (Meets-role tenant))
                  (λ s h. h))
                (λ role.
                  Meets-bind _ _
                    (Meets-or_default (tenant_role_permissions viewer) _
                      (Meets-with_error (λ e. 500) _ (Meets-Permissions tenant))
                      (λ s h. (h.1.0, h.1.1, inr refl)))
                    (λ ps. Meets-pure _ (λ s h. (refl, h))))))

  -- A context after `RequireTenant`.
  abbrev Vouched : Option TenantContext → Type 0
  Vouched none = Unit
  Vouched (some c) =
      (cfg.enabled ≡ true)
      × ((((cfg.allow_cross_tenant_access && is_global_admin user.role) ≡ true)
            × (c.permissions ≡ tenant_role_permissions admin))
          ⊎ ((tenant : ℕ) × (tenant_text cfg headers ≡ some (some tenant))
              × Permissions tenant c.permissions a))

  through :
      (permission : String) (c : TenantContext)
      → Vouched (some c)
      → has_text permission c.permissions ≡ true
      → MayPass cfg headers user permission a
  through permission c (on, inl (global, e)) h =
      across on global (subst (λ ps. has_text permission ps ≡ true) e h)
  through permission c (on, inr (tenant, named, (m, found, inl e))) h =
      as_member tenant m on named found (inl (subst (λ ps. has_text permission ps ≡ true) e h))
  through permission c (on, inr (tenant, named, (m, found, inr e))) h =
      as_member tenant m on named found (inr (subst (λ ps. has_text permission ps ≡ true) e h))

  -- What `ExtractTenant` leaves: no context yet, and the tenant that the headers name.
  abbrev Extracted : RequestKeys → Type 0
  Extracted keys =
      (keys.tenant_context ≡ none)
      × (cfg.enabled ≡ true
          → (tenant : ℕ) → keys.tenant_id ≡ some tenant
          → tenant_text cfg headers ≡ some (some tenant))

  text_read :
      (text : Option (Option ℕ))
      → tenant_text cfg headers ≡ text
      → Meets {X = ℕ}
          (SameMembers a)
          (elim text [
            | none ↦ pure no_keys
            | some none ↦ raise 400
            | some (some id) ↦ pure (record no_keys { tenant_id = some id })
          ])
          (λ keys s. SameMembers a s × Extracted keys)
          (λ s. Unit {0})
  text_read none e =
      Meets-pure no_keys
        (λ s h. (h, (refl, λ on tenant no_id. absurd (some_or_none tenant (sym no_id)))))
  text_read (some none) e = Meets-raise 400 (λ s h. tt)
  text_read (some (some id)) e =
      Meets-pure (record no_keys { tenant_id = some id })
        (λ s h. (h, (refl, λ on tenant same. rw (sym (some_inj.0 same)) e)))

  Meets-extract_tenant :
      Meets
        (SameMembers a)
        (extract_tenant cfg headers no_keys)
        (λ keys s. SameMembers a s × Extracted keys)
        (λ s. Unit {0})
  unfolding extract_tenant
  Meets-extract_tenant =
      Meets-if (not cfg.enabled) _ _
        (λ off. Meets-pure _ (λ s h. (h, (refl, λ on. absurd (ground (arith, off, on))))))
        (λ _. text_read (tenant_text cfg headers) refl)

  Meets-require_tenant :
      (keys : RequestKeys) (auth : Option User)
      → auth ≡ some user
      → Extracted keys
      → Meets
          (SameMembers a)
          (require_tenant cfg auth keys)
          (λ ks s. Vouched ks.tenant_context)
          (λ s. Unit {0})
  unfolding require_tenant
  Meets-require_tenant keys auth signed_in x =
      Meets-if (not cfg.enabled) _ _ (λ _. Meets-pure keys (λ s h. subst Vouched (sym x.0) tt))
        (λ on.
          Meets-given 400 keys.tenant_id _ (λ s h. tt)
            (λ tenant named.
              Meets-given 401 auth _ (λ s h. tt)
                (λ caller e.
                  let same : user ≡ caller = some_inj.0 (sym signed_in ∙ e) in
                  Meets-if (cfg.allow_cross_tenant_access && is_global_admin caller.role) _ _
                    (λ global.
                      Meets-pure _ (λ s h. (negated cfg.enabled on, inl (rw (same) global, refl))))
                    (λ _.
                      Meets-bind {Q = λ u s. SameMembers a s} _ _
                        (Meets-if (not cfg.has_service) _ _ (λ _. Meets-raise 500 (λ s h. tt))
                          (λ _. Meets-pure tt (λ s h. h)))
                        (λ u.
                          subst
                            (λ c.
                              Meets (SameMembers a)
                                (member_context tenant c.id >>= λ context. pure (record keys {
                                  tenant_context = some context;
                                  tenant_role = some (context.role);
                                }))
                                (λ ks s. Vouched ks.tenant_context) (λ s. Unit {0}))
                            same
                            (Meets-bind _ _ (Meets-member_context tenant) (λ c. Meets-pure _ (λ s h.
                              (
                                negated cfg.enabled on,
                                inr (tenant, x.1 (negated cfg.enabled on) tenant named, h.1),
                              )))))))))

  Meets-permission :
      (permission : String) (keys : RequestKeys)
      → Meets
          (λ s. Vouched keys.tenant_context)
          (require_tenant_permission permission keys)
          (λ u s. MayPass cfg headers user permission a)
          (λ s. Unit {0})
  unfolding require_tenant_permission
  Meets-permission permission keys =
      Meets-given 403 keys.tenant_context _ (λ s h. tt)
        (λ c e.
          Meets-if (not (has_text permission c.permissions)) _ _ (λ _. Meets-raise 403 (λ s h. tt))
            (λ is. Meets-pure tt (λ s h.
              through permission c (subst Vouched e h)
                (negated (has_text permission c.permissions) is))))

  pub Meets-permit :
      (auth : Option User) (permission : String)
      → auth ≡ some user
      → Meets
          (SameMembers a)
          (permit cfg headers auth permission)
          (λ u s. MayPass cfg headers user permission a)
          (λ s. Unit {0})
  unfolding permit
  Meets-permit auth permission signed_in = Meets-bind _ _ Meets-extract_tenant (λ keys.
      Meets-bind _ _ (holding (Meets-require_tenant keys auth signed_in))
        (λ ks. Meets-permission permission ks))

-- Without a user there is no context.
pub Meets-anonymous :
    (cfg : TenantConfig) (headers : Headers) (a : TenantDb) (permission : String)
    → Meets (SameMembers a) (permit cfg headers none permission) (λ u s. ⊥) (λ s. Unit {0})
unfolding permit require_tenant require_tenant_permission
Meets-anonymous cfg headers a permission =
    Meets-bind _ _ (Meets-extract_tenant cfg headers a nobody) (λ keys.
      Meets-bind {Q = λ ks s. ks.tenant_context ≡ none} _ _
        (Meets-if (not cfg.enabled) _ _ (λ _. Meets-pure keys (λ s h. h.1.0))
          (λ _.
            Meets-given 400 keys.tenant_id _ (λ s h. tt)
              (λ tenant named.
                Meets-given 401 none _ (λ s h. tt)
                  (λ caller e. absurd (some_or_none caller (sym e))))))
        (λ ks.
          Meets-given 403 ks.tenant_context _ (λ s h. tt)
            (λ c e. record { at = λ s h. absurd (some_or_none c (sym e ∙ h)) })))
