-- ===== src/Tenants/Added.antt =====
-- Predicates on all rows, and the admins after a new row.
use philotes.Common.{
  ℕ, ◌≤◌, Bool, true, ◌≡◌, sym, inl, inr, none, List, [], ◌∷◌, ◌++◌, map, keep, All, Bool-cases,
  arith, ◌==◌,
}
use philotes.Tenants.{Tenant, TenantMember, TenantDb}
use philotes.Tenants.Requests.{UpdateTenantRequest}
use philotes.Tenants.Store.{find_member, tenant_update, is_membership}
use philotes.Tenants.Counts.{count, count-append}
use philotes.Tenants.Admins.{Governed, is_admin_of, none_at}

pub All-map :
    {A : Type 0} (P Q : A → Type 0) (f : A → A) (xs : List A)
    → ((x : A) → P x → Q (f x))
    → All P xs
    → All Q (map f xs)
All-map P Q f [] h a = tt
All-map P Q f (x ∷ xs) h a = (h x a.0, All-map P Q f xs h a.1)

pub All-keep :
    {A : Type 0} (P Q : A → Type 0) (r : A → Bool) (xs : List A)
    → ((x : A) → r x ≡ true → P x → Q x)
    → All P xs
    → All Q (keep r xs)
All-keep P Q r [] h a = tt
All-keep P Q r (x ∷ xs) h a = elim (Bool-cases (r x)) [
  | inl k ↦ rw (k) (h x k a.0, All-keep P Q r xs h a.1)
  | inr k ↦ rw (k) (All-keep P Q r xs h a.1)
]

pub All-append :
    {A : Type 0} (P Q : A → Type 0) (xs : List A) (y : A)
    → ((x : A) → P x → Q x)
    → All P xs
    → Q y
    → All Q (xs ++ (y ∷ []))
All-append P Q [] y h a q = (q, tt)
All-append P Q (x ∷ xs) y h a q = (h x a.0, All-append P Q xs y h a.1 q)

pub All-weaken :
    {A : Type 0} (P Q : A → Type 0) (xs : List A) → ((x : A) → P x → Q x) → All P xs → All Q xs
All-weaken P Q [] h a = tt
All-weaken P Q (x ∷ xs) h a = (h x a.0, All-weaken P Q xs h a.1)

-- A new row leaves the admins, and is the only one of its user.
pub more_admins :
    (t : ℕ) (ms : List TenantMember) (m : TenantMember)
    → 1 ≤ count (is_admin_of t) ms
    → 1 ≤ count (is_admin_of t) (ms ++ (m ∷ []))
more_admins t ms m led = omega (arith, led, count-append (is_admin_of t) ms (m ∷ []))

one_more :
    (p : TenantMember → Bool) (ms : List TenantMember) (m : TenantMember)
    → count p ms ≤ 1
    → (p m ≡ true → count p ms ≡ 0)
    → count p (ms ++ (m ∷ [])) ≤ 1
unfolding count
one_more p ms m once new = elim (Bool-cases (p m)) [
  | inl k ↦ ground (arith, k, new k, count-append p ms (m ∷ []))
  | inr k ↦ ground (arith, k, once, count-append p ms (m ∷ []))
]

pub once_more :
    (tenant user : ℕ) (m : TenantMember) (db : TenantDb)
    → Governed db
    → find_member m.tenant_id m.user_id db.members ≡ none
    → count (is_membership tenant user) (db.members ++ (m ∷ [])) ≤ 1
once_more tenant user m db g e =
    one_more (is_membership tenant user) db.members m (g.once tenant user) (λ k.
      let t : m.tenant_id ≡ tenant = ground (arith, k) in
      let u : m.user_id ≡ user = ground (arith, k) in
      rw (sym t, sym u) (none_at m.tenant_id m.user_id db.members e))

pub same_id :
    (id now : ℕ) (req : UpdateTenantRequest) (t : Tenant) → (tenant_update id now req t).id ≡ t.id
same_id id now req t = elim (Bool-cases (t.id == id)) [
  | inl k ↦ ground (arith, k)
  | inr k ↦ ground (arith, k)
]
