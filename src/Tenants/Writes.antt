-- ===== src/Tenants/Writes.antt =====
-- A rule for each operation of the service that writes: what has to hold of the tables it leaves, given what
-- it has found out before.
use philotes.Common.{
  ℕ, sym, ap, false, not, ◌≡◌, refl, Option, none, some, List, map, keep, leb, is_some, inl, inr,
  ◌≤◌, if◌then◌else◌, ◌==◌, arith, ◌⊎◌,
}
use philotes.Common.Actions.{
  Meets, Meets-pure, Meets-raise, Meets-if, Meets-bind, Meets-with_error, Meets-weaken,
}
use philotes.Tenants.{
  TenantError, Tenant, TenantMember, TenantCustomRole, TenantDb, member_exists, cannot_remove_owner,
  cannot_demote_last_admin, cannot_remove_last_admin, wrapped_error,
}
use philotes.Tenants.Requests.{
  UpdateTenantRequest, AddMemberRequest, UpdateMemberRequest, CreateCustomRoleRequest,
  UpdateCustomRoleRequest, validate_update, validate_add_member, validate_update_member,
  validate_create_role, validate_update_role,
}
use philotes.Tenants.Store.{
  find_member, members_of, tenant_update, update_tenant_row, store_update_tenant,
  store_delete_tenant, new_member, with_member, without_tenant, with_role, refused_member,
  refused_update, refused_delete, refused_removal, refused_role, refused_role_update,
  refused_role_delete, store_add_member, member_update, update_member_row, store_update_member,
  store_remove_member, is_membership, new_role, store_create_role, role_update, update_role_row,
  store_update_role, store_delete_role, store_list_members,
}
use philotes.Tenants.Service.{
  update, delete, add_member, keep_an_admin, update_member, remove_member, create_custom_role,
  update_custom_role, delete_custom_role, is_admin_member, admin_count, demotes, is_owner,
  tenant_error, member_error, user_error, role_error,
}
use philotes.Tenants.Reads.{
  Frame, knowing, ended, Meets-write, Meets-query, Meets-get_tenant, Meets-get_by_id,
  Meets-store_get_member, Meets-get_member, Meets-get_role, Meets-get_user, Meets-validated,
}

abbrev pub with_tenants : TenantDb → List Tenant → TenantDb
with_tenants db ts = record db { tenants = ts }

abbrev pub with_members : TenantDb → List TenantMember → TenantDb
with_members db ms = record db { members = ms }

abbrev pub with_roles : TenantDb → List TenantCustomRole → TenantDb
with_roles db rs = record db { roles = rs }

-- What the refusal leaves: the member was no admin, or the tenant has two.
abbrev pub Spared : ℕ → TenantMember → TenantDb → Type 0
Spared tenant m db = (is_admin_member m ≡ false) ⊎ (2 ≤ admin_count (members_of tenant db))

pub some_or_none : {A : Type 0} (a : A) → some a ≡ none → ⊥
some_or_none a e = ground (arith, ap is_some e)

two_or_more : (n : ℕ) → leb n 1 ≡ false → 2 ≤ n
two_or_more n h = ground (arith, h)

pub not_found_member :
    (o : Option TenantMember) (r : Option TenantError)
    → (if is_some o then some member_exists else r) ≡ none
    → o ≡ none
not_found_member none r e = refl
not_found_member (some m) r e = absurd (some_or_none member_exists e)

module _ {I G : TenantDb → Type 0} (f : Frame I G) where
  pub Meets-keep_an_admin :
      (refusal : TenantError) (tenant : ℕ) (m : TenantMember)
      → Meets I (keep_an_admin refusal tenant m) (λ u s. I s × Spared tenant m s) G
  unfolding keep_an_admin store_list_members
  Meets-keep_an_admin refusal tenant m =
      Meets-if (is_admin_member m) _ _
        (λ _.
          Meets-bind _ _
            (Meets-with_error (wrapped_error 11) _ (Meets-query f 7 (members_of tenant)))
            (λ ms.
              Meets-if (leb (admin_count ms) 1) _ _ (λ _. Meets-raise refusal (λ s h. f.ends s h.0))
                (λ more. Meets-pure tt (λ s h. (
                  h.0,
                  inr (two_or_more (admin_count (members_of tenant s)) (rw (sym h.1) more)),
                )))))
        (λ none. Meets-pure tt (λ s h. (h, inl none)))

module _ {I G : TenantDb → Type 0} (f : Frame I G) where
  pub Meets-update :
      (id : ℕ) (req : UpdateTenantRequest)
      → ((db : TenantDb)
          → I db
          → G (with_tenants db (map (tenant_update id db.now req) db.tenants)))
      → Meets I (update id req) (λ t s. G s) G
  unfolding update store_update_tenant update_tenant_row
  Meets-update id req w = Meets-bind _ _ (Meets-validated f (validate_update req)) (λ u.
      Meets-with_error (tenant_error 6) _ (
        Meets-bind _ _ (Meets-get_tenant f id) (λ t.
          Meets-bind _ _
            (Meets-write (knowing f _ (λ db fs h. h)) 3 (refused_update id req) _ _
              (λ db h _. w db h.0))
            (λ u. Meets-weaken (Meets-get_tenant (ended f) id) (λ t s h. h.0)))))

  pub Meets-delete :
      (id : ℕ)
      → ((db : TenantDb) → I db → G (without_tenant id db))
      → Meets I (delete id) (λ u s. G s) G
  unfolding delete store_delete_tenant
  Meets-delete id w =
      Meets-with_error (tenant_error 7) _
        (Meets-write f 4 (refused_delete id) _ _ (λ db h _. w db h))

  pub Meets-add_member :
      (tenant : ℕ) (req : AddMemberRequest)
      → ((db : TenantDb)
          → I db
          → find_member tenant req.user_id db.members ≡ none
          → G (with_member tenant req.user_id req.role req.custom_permissions db))
      → Meets I (add_member tenant req) (λ m s. G s) G
  unfolding add_member store_add_member
  Meets-add_member tenant req w = Meets-bind _ _ (Meets-validated f (validate_add_member req)) (λ u.
      Meets-bind _ _ (Meets-get_by_id f tenant) (λ t.
        let known = knowing f _ (λ db fs h. h) in
        Meets-bind _ _ (Meets-with_error (user_error 8) _ (Meets-get_user known (req.user_id)))
          (λ u. Meets-with_error (member_error 9) _ (
            Meets-write known 5 (refused_member tenant req.user_id)
              (λ db. new_member db tenant req.user_id req.role req.custom_permissions) _
              (λ db h e.
                w db h.0 (not_found_member (find_member tenant req.user_id db.members) _ e))))))

  pub Meets-update_member :
      (tenant user : ℕ) (req : UpdateMemberRequest)
      → ((db : TenantDb)
          → I db
          → (demotes req ≡ false)
            ⊎ ((m : TenantMember) × (find_member tenant user db.members ≡ some m)
                × Spared tenant m db)
          → G (with_members db (map (member_update tenant user db.now req) db.members)))
      → Meets I (update_member tenant user req) (λ m s. G s) G
  unfolding update_member store_update_member update_member_row
  Meets-update_member tenant user req w =
      Meets-bind _ _ (Meets-validated f (validate_update_member req)) (λ u.
        Meets-bind
          {Q = λ u s.
            I s
            × ((demotes req ≡ false)
                ⊎ ((m : TenantMember) × (find_member tenant user s.members ≡ some m)
                    × Spared tenant m s))}
          _ _
          (Meets-if (demotes req) _ _
            (λ _. Meets-bind _ _ (Meets-get_member f tenant user) (λ m.
              Meets-weaken
                (Meets-keep_an_admin (knowing f _ (λ db fs h. h)) cannot_demote_last_admin tenant m)
                (λ u s h. (h.0.0, inr (m, h.0.1, h.1)))))
            (λ no. Meets-pure tt (λ s h. (h, inl no))))
          (λ u. Meets-with_error (member_error 12) _ (
            let known = knowing f _ (λ db fs h. h) in
            Meets-bind _ _ (Meets-store_get_member known tenant user) (λ m.
              Meets-bind _ _
                (Meets-write (knowing known _ (λ db fs h. h)) 8 (λ db. none) _ _
                  (λ db h _. w db h.0.0 h.0.1))
                (λ u.
                  Meets-weaken (Meets-store_get_member (ended f) tenant user) (λ t s h. h.0))))))

  pub Meets-remove_member :
      (tenant user : ℕ)
      → ((db : TenantDb) (m : TenantMember)
          → I db
          → find_member tenant user db.members ≡ some m
          → Spared tenant m db
          → G (with_members db (keep (λ m. not (is_membership tenant user m)) db.members)))
      → Meets I (remove_member tenant user) (λ u s. G s) G
  unfolding remove_member store_remove_member
  Meets-remove_member tenant user w = Meets-bind _ _ (Meets-get_by_id f tenant) (λ t.
      let known = knowing f _ (λ db fs h. h) in
      Meets-bind _ _
        (Meets-if (is_owner user t) _ _ (λ _. Meets-raise cannot_remove_owner (λ s h. f.ends s h.0))
          (λ _. Meets-pure tt (λ s h. h)))
        (λ u. Meets-bind _ _ (Meets-get_member known tenant user) (λ m.
          let found = knowing known _ (λ db fs h. h) in
          Meets-bind _ _ (Meets-keep_an_admin found cannot_remove_last_admin tenant m) (λ u.
            Meets-with_error (member_error 13) _ (
              Meets-write (knowing found _ (λ db fs h. h)) 9 (refused_removal tenant user) _ _
                (λ db h _. w db m h.0.0.0 h.0.1 h.1))))))

  pub Meets-create_custom_role :
      (tenant : ℕ) (req : CreateCustomRoleRequest)
      → ((db : TenantDb) → I db → G (with_role tenant req.name req.description req.permissions db))
      → Meets I (create_custom_role tenant req) (λ r s. G s) G
  unfolding create_custom_role store_create_role
  Meets-create_custom_role tenant req w =
      Meets-bind _ _ (Meets-validated f (validate_create_role req)) (λ u.
        Meets-bind _ _ (Meets-get_by_id f tenant) (λ t. Meets-with_error (role_error 15) _ (
          Meets-write (knowing f _ (λ db fs h. h)) 17 (refused_role tenant req.name)
            (λ db. new_role db tenant req.name req.description req.permissions) _
            (λ db h _. w db h.0))))

  pub Meets-update_custom_role :
      (id : ℕ) (req : UpdateCustomRoleRequest)
      → ((db : TenantDb) → I db → G (with_roles db (map (role_update id db.now req) db.roles)))
      → Meets I (update_custom_role id req) (λ r s. G s) G
  unfolding update_custom_role store_update_role update_role_row
  Meets-update_custom_role id req w =
      Meets-bind _ _ (Meets-validated f (validate_update_role req)) (λ u.
        Meets-with_error (role_error 18) _ (
          Meets-bind _ _ (Meets-get_role f id) (λ r.
            Meets-bind _ _
              (Meets-write (knowing f _ (λ db fs h. h)) 18 (refused_role_update id req) _ _
                (λ db h _. w db h.0))
              (λ u. Meets-weaken (Meets-get_role (ended f) id) (λ t s h. h.0)))))

  pub Meets-delete_custom_role :
      (id : ℕ)
      → ((db : TenantDb) → I db → G (with_roles db (keep (λ r. not (r.id == id)) db.roles)))
      → Meets I (delete_custom_role id) (λ u s. G s) G
  unfolding delete_custom_role store_delete_role
  Meets-delete_custom_role id w =
      Meets-with_error (role_error 19) _
        (Meets-write f 19 (refused_role_delete id) _ _ (λ db h _. w db h))
