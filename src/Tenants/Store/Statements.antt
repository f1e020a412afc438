-- ===== src/Tenants/Store/Statements.antt =====
-- One statement on the tables, and the rows that it looks for.
use Prim.Native.String.{String}
use text.Mathlib.Text.{◌==◌ as str_eq}
use philotes.Common.{
  ℕ, Bool, true, false, not, ◌&&◌, ◌||◌, Option, none, some, List, [], ◌∷◌, ◌==◌, if◌then◌else◌,
}
use philotes.Common.Errors.{GoError, plain, first_fault, other_faults}
use philotes.Common.Actions.{Answer, done, raised}
use philotes.Tenants.{
  Tenant, TenantMember, TenantCustomRole, TenantError, database, TenantDb, Stored,
}

abbrev pub past_fault : TenantDb → TenantDb
past_fault db = record db { faults = other_faults db.faults }

-- One statement, which fails with the number of its message.
unfoldable pub statement :
    {A : Type 0} → ℕ → (TenantDb → Answer TenantError A × TenantDb) → Stored A
statement code f db = elim (first_fault db.faults) [
  | some x ↦ (raised (database code x), past_fault db)
  | none ↦ f (past_fault db)
]

-- A statement that only reads.
unfoldable pub query : {A : Type 0} → ℕ → (TenantDb → A) → Stored A
unfolding statement
query code f = statement code (λ db. (done (f db), db))

abbrev pub effect :
    {A : Type 0} → Option TenantError → A → TenantDb → TenantDb → Answer TenantError A × TenantDb
effect (some x) a changed db = (raised x, db)
effect none a changed db = (done a, changed)

-- A statement that writes, unless a constraint or a count of 0 rows refuses it.
unfoldable pub write :
    {A : Type 0}
    → ℕ
    → (TenantDb → Option TenantError)
    → (TenantDb → A)
    → (TenantDb → TenantDb)
    → Stored A
unfolding statement
write code refusal value change =
    statement code (λ db. effect (refusal db) (value db) (change db) db)

abbrev pub refuse_if : Bool → TenantError → Option TenantError
refuse_if true x = some x
refuse_if false x = none

abbrev pub given_or : {A : Type 0} → A → Option A → A
given_or old none = old
given_or old (some new) = new

-- The errors of constraints that the repositories do not tell apart.
abbrev pub foreign_key : GoError
foreign_key = plain 1

abbrev pub find_tenant : ℕ → List Tenant → Option Tenant
find_tenant id [] = none
find_tenant id (t ∷ ts) = let rest = find_tenant id ts in if t.id == id then some t else rest

abbrev pub slug_used : String → ℕ → List Tenant → Bool
slug_used slug id [] = false
slug_used slug id (t ∷ ts) = (not (t.id == id) && str_eq t.slug slug) || slug_used slug id ts

abbrev pub is_membership : ℕ → ℕ → TenantMember → Bool
is_membership tenant user m = m.tenant_id == tenant && m.user_id == user

abbrev pub find_member : ℕ → ℕ → List TenantMember → Option TenantMember
find_member tenant user [] = none
find_member tenant user (m ∷ ms) =
    let rest = find_member tenant user ms in if is_membership tenant user m then some m else rest

abbrev pub find_role : ℕ → List TenantCustomRole → Option TenantCustomRole
find_role id [] = none
find_role id (r ∷ rs) = let rest = find_role id rs in if r.id == id then some r else rest

abbrev pub role_name_used : ℕ → String → ℕ → List TenantCustomRole → Bool
role_name_used tenant name id [] = false
role_name_used tenant name id (r ∷ rs) =
    (not (r.id == id) && r.tenant_id == tenant && str_eq r.name name)
    || role_name_used tenant name id rs
