-- ===== src/Tenants/Outside.antt =====
-- The rows of the other tenants under a write.
use philotes.Common.{
  ℕ, ◌≤◌, Bool, true, false, not, ◌≡◌, refl, inl, inr, some, List, [], ◌∷◌, ◌++◌, map, keep,
  Bool-cases, arith, ◌==◌,
}
use mathlib.Core.Option.{some_inj}
use philotes.Tenants.{TenantCustomRole, TenantDb}
use philotes.Tenants.Requests.{UpdateCustomRoleRequest}
use philotes.Tenants.Store.{find_role, role_update}
use philotes.Tenants.Counts.{count}

pub record SameTables (a b : TenantDb) : Type 0 where
  pub tenants : b.tenants ≡ a.tenants
  pub members : b.members ≡ a.members
  pub roles : b.roles ≡ a.roles

-- The rows that are not of a tenant stay, and their order.
pub record SameOutside (tenant : ℕ) (a b : TenantDb) : Type 0 where
  pub tenants :
      keep (λ t. not (t.id == tenant)) b.tenants ≡ keep (λ t. not (t.id == tenant)) a.tenants
  pub members :
      keep (λ m. not (m.tenant_id == tenant)) b.members
      ≡ keep (λ m. not (m.tenant_id == tenant)) a.members
  pub roles :
      keep (λ r. not (r.tenant_id == tenant)) b.roles
      ≡ keep (λ r. not (r.tenant_id == tenant)) a.roles

abbrev pub has_role_id : ℕ → TenantCustomRole → Bool
has_role_id id r = r.id == id

module _ {A : Type 0} (p : A → Bool) where
  pub keep-map :
      (g : A → A) (xs : List A)
      → ((x : A) → p (g x) ≡ p x)
      → ((x : A) → p x ≡ true → g x ≡ x)
      → keep p (map g xs) ≡ keep p xs
  keep-map g [] h k = refl
  keep-map g (x ∷ xs) h k = elim (Bool-cases (p x)) [
    | inl e ↦ ground (arith, e, h x, k x e, keep-map g xs h k)
    | inr e ↦ ground (arith, e, h x, keep-map g xs h k)
  ]

  pub keep-keep :
      (r : A → Bool) (xs : List A)
      → ((x : A) → p x ≡ true → r x ≡ true)
      → keep p (keep r xs) ≡ keep p xs
  keep-keep r [] h = refl
  keep-keep r (x ∷ xs) h = elim (Bool-cases (p x)) [
    | inl e ↦ ground (arith, e, h x e, keep-keep r xs h)
    | inr e ↦ elim (Bool-cases (r x)) [
      | inl k ↦ ground (arith, e, k, keep-keep r xs h)
      | inr k ↦ ground (arith, e, k, keep-keep r xs h)
    ]
  ]

  pub keep-append : (xs : List A) (y : A) → p y ≡ false → keep p (xs ++ (y ∷ [])) ≡ keep p xs
  keep-append [] y h = ground (arith, h)
  keep-append (x ∷ xs) y h = elim (Bool-cases (p x)) [
    | inl e ↦ ground (arith, e, keep-append xs y h)
    | inr e ↦ ground (arith, e, keep-append xs y h)
  ]

module _ (tenant id : ℕ) where
  -- A write on the only role with an ID is seen in the tenant of that role alone.
  absent_update :
      (now : ℕ) (req : UpdateCustomRoleRequest) (rs : List TenantCustomRole)
      → count (has_role_id id) rs ≤ 0
      → map (role_update id now req) rs ≡ rs
  unfolding count
  absent_update now req [] o = refl
  absent_update now req (r ∷ rs) o = elim (Bool-cases (has_role_id id r)) [
    | inl k ↦ absurd (ground (arith, k, o))
    | inr k ↦ ground (arith, k, absent_update now req rs (ground (arith, k, o)))
  ]

  absent_removal :
      (rs : List TenantCustomRole)
      → count (has_role_id id) rs ≤ 0
      → keep (λ r. not (has_role_id id r)) rs ≡ rs
  unfolding count
  absent_removal [] o = refl
  absent_removal (r ∷ rs) o = elim (Bool-cases (has_role_id id r)) [
    | inl k ↦ absurd (ground (arith, k, o))
    | inr k ↦ ground (arith, k, absent_removal rs (ground (arith, k, o)))
  ]

  pub role_update-outside :
      (now : ℕ) (req : UpdateCustomRoleRequest) (r : TenantCustomRole) (rs : List TenantCustomRole)
      → count (has_role_id id) rs ≤ 1
      → find_role id rs ≡ some r
      → (r.tenant_id == tenant) ≡ true
      → keep (λ r. not (r.tenant_id == tenant)) (map (role_update id now req) rs)
        ≡ keep (λ r. not (r.tenant_id == tenant)) rs
  unfolding count
  role_update-outside now req r [] o e is = refl
  role_update-outside now req r (x ∷ xs) o e is = elim (Bool-cases (has_role_id id x)) [
    | inr k ↦ elim (Bool-cases (x.tenant_id == tenant)) [
      | inl l ↦ ground (
        arith,
        k,
        l,
        role_update-outside now req r xs (ground (arith, k, o)) (ground (arith, k, e)) is,
      )
      | inr l ↦ ground (
        arith,
        k,
        l,
        role_update-outside now req r xs (ground (arith, k, o)) (ground (arith, k, e)) is,
      )
    ]
    | inl k ↦
        let same : x ≡ r = some_inj.0 (ground (arith, k, e)) in
        let here : (x.tenant_id == tenant) ≡ true = rw (same) is in
        ground (arith, k, here, absent_update now req xs (ground (arith, k, o)))
  ]

  pub role_removal-outside :
      (r : TenantCustomRole) (rs : List TenantCustomRole)
      → count (has_role_id id) rs ≤ 1
      → find_role id rs ≡ some r
      → (r.tenant_id == tenant) ≡ true
      → keep (λ r. not (r.tenant_id == tenant)) (keep (λ r. not (has_role_id id r)) rs)
        ≡ keep (λ r. not (r.tenant_id == tenant)) rs
  unfolding count
  role_removal-outside r [] o e is = refl
  role_removal-outside r (x ∷ xs) o e is = elim (Bool-cases (has_role_id id x)) [
    | inr k ↦ elim (Bool-cases (x.tenant_id == tenant)) [
      | inl l ↦
          ground (
            arith,
            k,
            l,
            role_removal-outside r xs (ground (arith, k, o)) (ground (arith, k, e)) is,
          )
      | inr l ↦
          ground (
            arith,
            k,
            l,
            role_removal-outside r xs (ground (arith, k, o)) (ground (arith, k, e)) is,
          )
    ]
    | inl k ↦
        let same : x ≡ r = some_inj.0 (ground (arith, k, e)) in
        let here : (x.tenant_id == tenant) ≡ true = rw (same) is in
        ground (arith, k, here, absent_removal xs (ground (arith, k, o)))
  ]
