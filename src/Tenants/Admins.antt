-- ===== src/Tenants/Admins.antt =====
-- The admins of a tenant before and after a write on its members.
use mathlib.Core.Option.{some_inj}
use philotes.Common.{
  ℕ, ◌+◌, ◌≤◌, Bool, true, false, not, ◌&&◌, ◌≡◌, refl, sym, subst, inl, inr, Option, none, some,
  List, [], ◌∷◌, map, keep, All, Bool-cases, arith, elem, ◌==◌,
}
use philotes.Tenants.{TenantRole, is_tenant_admin, TenantMember, TenantDb}
use philotes.Tenants.Requests.{UpdateMemberRequest}
use philotes.Tenants.Store.{given_or, find_member, member_update, is_membership}
use philotes.Tenants.Service.{is_admin_member, admin_count, demotes}
use philotes.Tenants.Counts.{count, count-map, count_mono, count-none, count-map_same}
use philotes.Tenants.Writes.{Spared}
use philotes.Tenants.Steps.{Demotable}

abbrev pub is_admin_of : ℕ → TenantMember → Bool
is_admin_of tenant m = (m.tenant_id == tenant) && is_admin_member m

-- Each tenant has a member who is an admin, and a user is in a tenant once at most.
pub record Governed (db : TenantDb) : Type 0 where
  pub led : All (λ t. 1 ≤ count (is_admin_of t.id) db.members) db.tenants
  pub once : (tenant user : ℕ) → count (is_membership tenant user) db.members ≤ 1

-- The admin whom a write on a member may take out of the admins.
abbrev pub is_admin_here : ℕ → ℕ → TenantMember → Bool
is_admin_here tenant user m = is_membership tenant user m && is_admin_member m

pub none_at :
    (tenant user : ℕ) (ms : List TenantMember)
    → find_member tenant user ms ≡ none
    → count (is_membership tenant user) ms ≡ 0
unfolding count
none_at tenant user [] e = refl
none_at tenant user (m ∷ ms) e = elim (Bool-cases (is_membership tenant user m)) [
  | inl k ↦ absurd (ground (arith, k, e))
  | inr k ↦ ground (arith, k, none_at tenant user ms (ground (arith, k, e)))
]

-- A member who is no admin, and is the only one of a user, is none to lose.
no_admin_here :
    (tenant user : ℕ) (m : TenantMember) (ms : List TenantMember)
    → find_member tenant user ms ≡ some m
    → count (is_membership tenant user) ms ≤ 1
    → is_admin_member m ≡ false
    → count (is_admin_here tenant user) ms ≡ 0
unfolding count
no_admin_here tenant user m [] e o n = refl
no_admin_here tenant user m (x ∷ xs) e o n = elim (Bool-cases (is_membership tenant user x)) [
  | inr k ↦
      ground
        (arith, k, no_admin_here tenant user m xs (ground (arith, k, e)) (ground (arith, k, o)) n)
  | inl k ↦
      let same : x ≡ m = some_inj.0 (ground (arith, k, e)) in
      let rest =
        count_mono (is_admin_here tenant user) (is_membership tenant user) xs
          (λ y h. ground (arith, h)) in
      ground (arith, k, o, n, same, rest)
]

-- The admins whom the service counts are admins.
counted_admins :
    (tenant : ℕ) (users : List ℕ) (ms : List TenantMember)
    → admin_count (keep (λ m. m.tenant_id == tenant && elem m.user_id users) ms)
      ≤ count (is_admin_of tenant) ms
unfolding count
counted_admins tenant users [] = omega (arith)
counted_admins tenant users (m ∷ ms) = elim (Bool-cases (m.tenant_id == tenant)) [
  | inr k ↦ ground (arith, k, counted_admins tenant users ms)
  | inl k ↦ elim (Bool-cases (elem m.user_id users)) [
    | inl e ↦ elim (Bool-cases (is_admin_member m)) [
      | inl a ↦ ground (arith, k, e, a, counted_admins tenant users ms)
      | inr a ↦ ground (arith, k, e, a, counted_admins tenant users ms)
    ]
    | inr e ↦ elim (Bool-cases (is_admin_member m)) [
      | inl a ↦ ground (arith, k, e, a, counted_admins tenant users ms)
      | inr a ↦ ground (arith, k, e, a, counted_admins tenant users ms)
    ]
  ]
]

-- A write that takes at most this admin away from the tenant of a spared member leaves an admin.
pub Spared-lead :
    (tenant user : ℕ) (db : TenantDb) (m : TenantMember) (after : ℕ)
    → Governed db
    → find_member tenant user db.members ≡ some m
    → Spared tenant m db
    → count (is_admin_of tenant) db.members ≤ after + count (is_admin_here tenant user) db.members
    → 1 ≤ count (is_admin_of tenant) db.members
    → 1 ≤ after
Spared-lead tenant user db m after g e (inl lost) less led =
    omega (arith, less, led, no_admin_here tenant user m db.members e (g.once tenant user) lost)
Spared-lead tenant user db m after g e (inr two) less led = omega (
  arith,
  less,
  two,
  counted_admins tenant db.users db.members,
  g.once tenant user,
  count_mono (is_admin_here tenant user) (is_membership tenant user) db.members
      (λ y h. ground (arith, h)),
)

module _ (tenant user now : ℕ) (req : UpdateMemberRequest) where
  pub same_membership :
      (t u : ℕ) (m : TenantMember)
      → is_membership t u (member_update tenant user now req m) ≡ is_membership t u m
  same_membership t u m = elim (Bool-cases (is_membership tenant user m)) [
    | inl k ↦ ground (arith, k)
    | inr k ↦ ground (arith, k)
  ]

  same_elsewhere :
      (t : ℕ) (m : TenantMember)
      → (t == tenant) ≡ false
      → is_admin_of t (member_update tenant user now req m) ≡ is_admin_of t m
  same_elsewhere t m other = elim (Bool-cases (is_membership tenant user m)) [
    | inl k ↦ ground (arith, k, other)
    | inr k ↦ ground (arith, k)
  ]

  lost_here :
      (m : TenantMember)
      → is_admin_of tenant m ≡ true
      → is_admin_of tenant (member_update tenant user now req m) ≡ false
      → is_admin_here tenant user m ≡ true
  lost_here m p n = elim (Bool-cases (is_membership tenant user m)) [
    | inl k ↦ ground (arith, k, p)
    | inr k ↦ absurd (ground (arith, k, p, n))
  ]

kept_admin :
    (old : TenantRole) (o : Option TenantRole)
    → (elim o [ none ↦ false | some role ↦ not (is_tenant_admin role) ]) ≡ false
    → is_tenant_admin old ≡ true
    → is_tenant_admin (given_or old o) ≡ true
kept_admin old none d h = h
kept_admin old (some role) d h = ground (arith, d)

module _ (tenant user : ℕ) (req : UpdateMemberRequest) (db : TenantDb) (g : Governed db) where
  never_lost :
      demotes req ≡ false
      → (t : ℕ) (m : TenantMember) → is_admin_of t m ≡ true
      → is_admin_of t (member_update tenant user db.now req m) ≡ false
      → false ≡ true
  never_lost d t m p n = elim (Bool-cases (is_membership tenant user m)) [
    | inl k ↦ ground (arith, k, p, n, kept_admin m.role req.role d (ground (arith, p)))
    | inr k ↦ ground (arith, k, p, n)
  ]

  pub led_after_update :
      Demotable tenant user req db
      → (t : ℕ) → 1 ≤ count (is_admin_of t) db.members
      → 1 ≤ count (is_admin_of t) (map (member_update tenant user db.now req) db.members)
  led_after_update (inl d) t led = omega (
    arith,
    led,
    count-none {A = TenantMember} (λ m. false) db.members (λ m. refl),
    count-map (is_admin_of t) (λ m. false) (member_update tenant user db.now req) db.members
        (never_lost d t),
  )
  led_after_update (inr (m, found, spared)) t led = elim (Bool-cases (t == tenant)) [
    | inr other ↦
        rw
          (count-map_same (is_admin_of t) (member_update tenant user db.now req) db.members
            (λ m. same_elsewhere tenant user db.now req t m other))
          led
    | inl here ↦
        let same : t ≡ tenant = ground (arith, here) in
        subst
          (λ t. 1 ≤ count (is_admin_of t) (map (member_update tenant user db.now req) db.members))
          (sym same)
          (Spared-lead tenant user db m _ g found spared
            (count-map (is_admin_of tenant) (is_admin_here tenant user)
              (member_update tenant user db.now req) db.members (lost_here tenant user db.now req))
            (subst (λ t. 1 ≤ count (is_admin_of t) db.members) same led))
  ]
