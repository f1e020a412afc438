-- ===== src/Tenants/Governed.antt =====
-- Every tenant keeps an admin, whatever the requests to the routes and the statements that fail.
use philotes.Common.{
  ℕ, ◌≤◌, false, not, ◌≡◌, refl, sym, subst, inl, inr, Option, none, some, List, [], ◌∷◌, map, keep,
  Bool-cases, arith, ◌==◌,
}
use philotes.Common.Actions.{Answer, done, raised, Ends}
use philotes.Common.Errors.{GoError}
use philotes.Tenants.Creates.{with_tenant_and_owner}
use philotes.Tenants.{admin, User, TenantMember, TenantDb}
use philotes.Tenants.Requests.{
  AddMemberRequest, UpdateTenantRequest, UpdateMemberRequest, CreateTenantRequest,
}
use philotes.Tenants.Store.{
  find_member, tenant_update, without_tenant, new_member, with_member, member_update, is_membership,
  with_tenant, new_tenant,
}
use philotes.Tenants.Handlers.{Call, serve, Reply}
use philotes.Tenants.Counts.{
  count, count-append, count-keep, count-le_keep, count-none, count-map_same,
}
use philotes.Tenants.Admins.{
  Governed, is_admin_of, is_admin_here, Spared-lead, same_membership, led_after_update,
}
use philotes.Tenants.Reads.{Frame}
use philotes.Tenants.Writes.{Spared, with_tenants, with_members}
use philotes.Tenants.Steps.{Steps, Demotable}
use philotes.Tenants.Routes.{Meets-serve}
use philotes.Tenants.Added.{
  All-map, All-keep, All-append, All-weaken, more_admins, once_more, same_id,
}

module _ (user : User) where
  creates-Governed :
      (req : CreateTenantRequest) (db : TenantDb)
      → Governed db
      → find_member db.next_id user.id db.members ≡ none
      → Governed (with_tenant_and_owner req user.id db)
  unfolding count
  creates-Governed req db g e =
      let m : TenantMember =
        new_member (with_tenant req.name req.slug user.id req.settings db) db.next_id user.id admin
          [] in
      let own : 1 ≤ count (is_admin_of db.next_id) (m ∷ []) = ground (arith) in
      record {
        led =
            All-append _ _ db.tenants (new_tenant db req.name req.slug user.id req.settings)
              (λ t led. more_admins t.id db.members m led) g.led
              (omega (arith, own, count-append (is_admin_of db.next_id) db.members (m ∷ [])));
        once = λ t u. once_more t u m db g e;
      }

  adds_member-Governed :
      (id : ℕ) (req : AddMemberRequest) (db : TenantDb)
      → Governed db
      → find_member id req.user_id db.members ≡ none
      → Governed (with_member id req.user_id req.role req.custom_permissions db)
  adds_member-Governed id req db g e =
      let m : TenantMember = new_member db id req.user_id req.role req.custom_permissions in
      record {
        led = All-weaken _ _ db.tenants (λ t led. more_admins t.id db.members m led) g.led;
        once = λ t u. once_more t u m db g e;
      }

  updates-Governed :
      (id : ℕ) (req : UpdateTenantRequest) (db : TenantDb)
      → Governed db
      → Governed (with_tenants db (map (tenant_update id db.now req) db.tenants))
  updates-Governed id req db g = record {
    led =
        All-map _ _ (tenant_update id db.now req) db.tenants
          (λ t led.
            subst (λ k. 1 ≤ count (is_admin_of k) db.members) (sym (same_id id db.now req t)) led)
          g.led;
    once = g.once;
  }

  deletes-Governed : (id : ℕ) (db : TenantDb) → Governed db → Governed (without_tenant id db)
  deletes-Governed id db g = record {
    led =
        All-keep _ _ (λ t. not (t.id == id)) db.tenants
          (λ t other led. omega (
            arith,
            led,
            count-none {A = TenantMember} (λ m. false) db.members (λ m. refl),
            count-keep (is_admin_of t.id) (λ m. false) (λ m. not (m.tenant_id == id)) db.members
                (λ m is gone. ground (arith, is, gone, other)),
          ))
          g.led;
    once = λ t u. omega (
      arith,
      g.once t u,
      count-le_keep (is_membership t u) (λ m. not (m.tenant_id == id)) db.members,
    );
  }

  updates_member-Governed :
      (id other : ℕ) (req : UpdateMemberRequest) (db : TenantDb)
      → Governed db
      → Demotable id other req db
      → Governed (with_members db (map (member_update id other db.now req) db.members))
  updates_member-Governed id other req db g d = record {
    led = All-weaken _ _ db.tenants (λ t led. led_after_update id other req db g d t.id led) g.led;
    once = λ t u.
        rw
          (count-map_same (is_membership t u) (member_update id other db.now req) db.members
            (same_membership id other db.now req t u))
          (g.once t u);
  }

  led_after_removal :
      (id other : ℕ) (db : TenantDb) (m : TenantMember)
      → Governed db
      → find_member id other db.members ≡ some m
      → Spared id m db
      → (t : ℕ) → 1 ≤ count (is_admin_of t) db.members
      → 1 ≤ count (is_admin_of t) (keep (λ m. not (is_membership id other m)) db.members)
  led_after_removal id other db m g found spared t led = elim (Bool-cases (t == id)) [
    | inr away ↦ omega (
      arith,
      led,
      count-none {A = TenantMember} (λ m. false) db.members (λ m. refl),
      count-keep (is_admin_of t) (λ m. false) (λ m. not (is_membership id other m)) db.members
          (λ m is gone. ground (arith, is, gone, away)),
    )
    | inl here ↦
        let same : t ≡ id = ground (arith, here) in
        subst
          (λ t. 1 ≤ count (is_admin_of t) (keep (λ m. not (is_membership id other m)) db.members))
          (sym same)
          (Spared-lead id other db m _ g found spared
            (count-keep (is_admin_of id) (is_admin_here id other)
              (λ m. not (is_membership id other m)) db.members
              (λ m is gone. ground (arith, is, gone)))
            (subst (λ t. 1 ≤ count (is_admin_of t) db.members) same led))
  ]

  removes_member-Governed :
      (id other : ℕ) (db : TenantDb) (m : TenantMember)
      → Governed db
      → find_member id other db.members ≡ some m
      → Spared id m db
      → Governed (with_members db (keep (λ m. not (is_membership id other m)) db.members))
  removes_member-Governed id other db m g found spared = record {
    led =
        All-weaken _ _ db.tenants (λ t led. led_after_removal id other db m g found spared t.id led)
          g.led;
    once = λ t u. omega (
      arith,
      g.once t u,
      count-le_keep (is_membership t u) (λ m. not (is_membership id other m)) db.members,
    );
  }

  Steps-Governed : (call : Call) → Steps Governed Governed user call
  Steps-Governed call = record {
    creates = λ req db n g fresh. creates-Governed req db g fresh;
    updates = λ id req db n g may. updates-Governed id req db g;
    deletes = λ id db n g may. deletes-Governed id db g;
    adds_member = λ id req db n g may e. adds_member-Governed id req db g e;
    updates_member = λ id other req db n g may d. updates_member-Governed id other req db g d;
    removes_member = λ id other db m n g may e d. removes_member-Governed id other db m g e d;
    creates_role = λ id req db n g may. record { led = g.led; once = g.once };
    updates_role = λ id role req db n g may is. record { led = g.led; once = g.once };
    deletes_role = λ id role db n g may is. record { led = g.led; once = g.once };
  }

frame-Governed : Frame Governed Governed
frame-Governed = record {
  past = λ db fs g. record { led = g.led; once = g.once };
  past_end = λ db fs g. record { led = g.led; once = g.once };
  ends = λ db g. g;
}

-- One request after the other: who asks for what, and when, and which statements fail.
pub record Request : Type 0 where
  pub auth : Option User
  pub call : Call
  pub now : ℕ
  pub faults : List (Option GoError)

unfoldable pub serve_all : List Request → TenantDb → TenantDb
unfolding serve
serve_all [] db = db
serve_all (r ∷ rs) db =
    serve_all rs ((serve r.auth r.call (record db { now = r.now; faults = r.faults })).1)

ended-Governed :
    (r : Answer ℕ (ℕ × Reply) × TenantDb) → Ends (λ a s. Governed s) Governed r → Governed r.1
ended-Governed (done a, db) g = g
ended-Governed (raised x, db) g = g

-- If every tenant has a member who is an admin, and no user is in a tenant twice, then this is so after any
-- requests to the routes on tenants, members and roles, one after the other, whoever sends them and whichever
-- statements fail: no request takes away the last admin of a tenant.
pub serve_all-Governed :
    (requests : List Request) (db : TenantDb) → Governed db → Governed (serve_all requests db)
unfolding serve_all
serve_all-Governed [] db g = g
serve_all-Governed (r ∷ rs) db g =
    let now : TenantDb = record db { now = r.now; faults = r.faults } in
    serve_all-Governed rs _ (
      ended-Governed (serve r.auth r.call now) (
        (Meets-serve frame-Governed r.auth r.call (λ user e. Steps-Governed user r.call)).at now
          (record { led = g.led; once = g.once })))
