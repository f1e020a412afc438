-- ===== src/Tenants/Authority.antt =====
-- Who may change what: a request changes rows of one tenant at most, and only for a user who may do so.
use philotes.Common.{
  true, ℕ, ◌≤◌, not, ◌≡◌, refl, sym, ap, subst, ◌⊎◌, inl, inr, Option, some, List, map, keep,
  Bool-cases, arith, ◌==◌,
}
use philotes.Common.Errors.{GoError}
use philotes.Common.Actions.{Answer, done, raised, Ends}
use philotes.Tenants.{User, TenantDb}
use philotes.Tenants.Store.{
  tenant_update, without_tenant, with_member, member_update, is_membership, with_role, role_update,
}
use philotes.Tenants.Handlers.{Call, serve, Reply}
use philotes.Tenants.Counts.{count}
use philotes.Tenants.Outside.{
  SameTables, SameOutside, has_role_id, keep-map, keep-keep, keep-append, role_update-outside,
  role_removal-outside,
}
use philotes.Tenants.Reads.{Frame}
use philotes.Tenants.Writes.{with_tenants, with_members, with_roles}
use philotes.Tenants.Creates.{with_tenant_and_owner}
use philotes.Tenants.Steps.{
  makes_tenant, tenant_deleted, tenant_written, Steps, MayAdminister, MayDelete, RoleIn,
}
use philotes.Tenants.Routes.{Meets-serve}

-- What a request of a user may do to the tables: make a tenant, change the one it names if the user administers
-- it, or delete that one.
pub data Change (user : User) (call : Call) (a b : TenantDb) : Type 0 where
  made : makes_tenant call ≡ true → SameOutside a.next_id a b → Change user call a b
  administered :
      (tenant : ℕ)
      → tenant_written call ≡ some tenant
      → MayAdminister user tenant a
      → SameOutside tenant a b
      → Change user call a b
  deleted :
      (tenant : ℕ)
      → tenant_deleted call ≡ some tenant
      → MayDelete user tenant a
      → SameOutside tenant a b
      → Change user call a b

-- The tables of a state, with other faults to come.
abbrev As : TenantDb → TenantDb → Type 0
As a s = (fs : List (Option GoError)) × (s ≡ record a { faults = fs })

abbrev Authorised : Option User → Call → TenantDb → TenantDb → Type 0
Authorised auth call a s =
    SameTables a s ⊎ ((user : User) × (auth ≡ some user) × Change user call a s)

same_tables : (a s : TenantDb) → As a s → SameTables a s
same_tables a s h = record {
  tenants = ap (λ d. d.tenants) h.1;
  members = ap (λ d. d.members) h.1;
  roles = ap (λ d. d.roles) h.1;
}

module _ (auth : Option User) (call : Call) (a : TenantDb) where
  past_Authorised :
      (s : TenantDb) (fs : List (Option GoError))
      → Authorised auth call a s
      → Authorised auth call a (record s { faults = fs })
  past_Authorised s fs (inl h) =
      inl (record { tenants = h.tenants; members = h.members; roles = h.roles })
  past_Authorised s fs (inr (user, e, made n o)) =
      inr (user, e, made n (record { tenants = o.tenants; members = o.members; roles = o.roles }))
  past_Authorised s fs (inr (user, e, administered t n may o)) = inr (
    user,
    e,
    administered t n may (record { tenants = o.tenants; members = o.members; roles = o.roles }),
  )
  past_Authorised s fs (inr (user, e, deleted t n may o)) = inr (
    user,
    e,
    deleted t n may (record { tenants = o.tenants; members = o.members; roles = o.roles }),
  )

  frame-Authorised : Frame (As a) (Authorised auth call a)
  frame-Authorised = record {
    past = λ s fs h. (fs, ap {A = TenantDb} (λ d. record d { faults = fs }) h.1);
    past_end = past_Authorised;
    ends = λ s h. inl (same_tables a s h);
  }

  module _ (user : User) (signed_in : auth ≡ some user)
      (role_keys : (id : ℕ) → count (has_role_id id) a.roles ≤ 1) where
    -- A write of an admin of the tenant, given for the tables of the start.
    by_admin :
        (tenant : ℕ) (K : TenantDb → Type 0) (w : TenantDb → TenantDb)
        → ((fs : List (Option GoError))
            → K (record a { faults = fs })
            → SameOutside tenant a (w (record a { faults = fs })))
        → (db : TenantDb) → tenant_written call ≡ some tenant
        → As a db
        → MayAdminister user tenant db
        → K db
        → Authorised auth call a (w db)
    by_admin tenant K w o db n h may k = inr (
      user,
      signed_in,
      administered tenant n (subst (MayAdminister user tenant) h.1 may)
          (subst (λ d. SameOutside tenant a (w d)) (sym h.1) (o h.0 (subst K h.1 k))),
    )

    Steps-Authorised : Steps (As a) (Authorised auth call a) user call
    Steps-Authorised = record {
      creates = λ req db n h fresh. inr (
        user,
        signed_in,
        made n (
            subst (λ d. SameOutside a.next_id a (with_tenant_and_owner req user.id d)) (sym h.1)
              (record {
                tenants = keep-append _ a.tenants _ (ground (arith));
                members = keep-append _ a.members _ (ground (arith));
                roles = refl;
              })),
      );
      updates = λ id req db n h may.
          by_admin id (λ d. Unit {0})
            (λ d. with_tenants d (map (tenant_update id d.now req) d.tenants))
            (λ fs u. record {
              tenants =
                  keep-map _ (tenant_update id a.now req) a.tenants
                    (λ t. elim (Bool-cases (t.id == id)) [
                      | inl k ↦ ground (arith, k)
                      | inr k ↦ ground (arith, k)
                    ])
                    (λ t other. ground (arith, other));
              members = refl;
              roles = refl;
            })
            db n h may tt;
      deletes = λ id db n h may. inr (
        user,
        signed_in,
        deleted id n (subst (MayDelete user id) h.1 may) (
            subst (λ d. SameOutside id a (without_tenant id d)) (sym h.1)
              (record {
                tenants = keep-keep _ _ a.tenants (λ t k. k);
                members = keep-keep _ _ a.members (λ t k. k);
                roles = keep-keep _ _ a.roles (λ t k. k);
              })),
      );
      adds_member = λ id req db n h may e.
          by_admin id (λ d. Unit {0}) (with_member id req.user_id req.role req.custom_permissions)
            (λ fs u. record {
              tenants = refl;
              members = keep-append _ a.members _ (ground (arith));
              roles = refl;
            })
            db n h may tt;
      updates_member = λ id other req db n h may d.
          by_admin id (λ d. Unit {0})
            (λ d. with_members d (map (member_update id other d.now req) d.members))
            (λ fs u. record {
              tenants = refl;
              members =
                  keep-map _ (member_update id other a.now req) a.members
                    (λ m. elim (Bool-cases (is_membership id other m)) [
                      | inl k ↦ ground (arith, k)
                      | inr k ↦ ground (arith, k)
                    ])
                    (λ m away. ground (arith, away));
              roles = refl;
            })
            db n h may tt;
      removes_member = λ id other db m n h may e d.
          by_admin id (λ d. Unit {0})
            (λ d. with_members d (keep (λ m. not (is_membership id other m)) d.members))
            (λ fs u. record {
              tenants = refl;
              members = keep-keep _ _ a.members (λ m away. ground (arith, away));
              roles = refl;
            })
            db n h may tt;
      creates_role = λ id req db n h may.
          by_admin id (λ d. Unit {0}) (with_role id req.name req.description req.permissions)
            (λ fs u. record {
              tenants = refl;
              members = refl;
              roles = keep-append _ a.roles _ (ground (arith));
            })
            db n h may tt;
      updates_role = λ id role req db n h may is.
          by_admin id (RoleIn id role)
            (λ d. with_roles d (map (role_update role d.now req) d.roles))
            (λ fs k. record {
              tenants = refl;
              members = refl;
              roles = role_update-outside id role a.now req k.0 a.roles (role_keys role) k.1 k.2;
            })
            db n h may is;
      deletes_role = λ id role db n h may is.
          by_admin id (RoleIn id role) (λ d. with_roles d (keep (λ r. not (r.id == role)) d.roles))
            (λ fs k. record {
              tenants = refl;
              members = refl;
              roles = role_removal-outside id role k.0 a.roles (role_keys role) k.1 k.2;
            })
            db n h may is;
    }

ended-Authorised :
    (auth : Option User) (call : Call) (a : TenantDb) (r : Answer ℕ (ℕ × Reply) × TenantDb)
    → Ends (λ x s. Authorised auth call a s) (Authorised auth call a) r
    → Authorised auth call a r.1
ended-Authorised auth call a (done x, s) h = h
ended-Authorised auth call a (raised x, s) h = h

-- Whatever a request to the routes asks for, and whichever statements fail: it leaves the tables of tenants,
-- members and roles as they were, or it comes from a user who has signed in and may make the change. A request to
-- make a tenant adds rows of a new ID; one that writes changes the tenant that its path names, and its user is an
-- admin of that tenant or a global admin; one that deletes takes away that tenant, and its user is the owner or a
-- global admin. The rows of the other tenants stay as they are. The IDs of the roles are a primary key: no two
-- roles have one.
pub serve-Authorised :
    (auth : Option User) (call : Call) (db : TenantDb)
    → ((id : ℕ) → count (has_role_id id) db.roles ≤ 1)
    → SameTables db (serve auth call db).1
      ⊎ ((user : User) × (auth ≡ some user) × Change user call db (serve auth call db).1)
serve-Authorised auth call db role_keys = ended-Authorised auth call db (serve auth call db) (
    (Meets-serve (frame-Authorised auth call db) auth call
        (λ user e. Steps-Authorised auth call db user e role_keys)).at
      db (db.faults, refl))
