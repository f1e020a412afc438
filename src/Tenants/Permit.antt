-- ===== src/Tenants/Permit.antt =====
-- The middlewares of a route that needs a permission, and why they let a request through.
use Prim.Native.String.{String}
use philotes.Common.{
  ℕ, Bool, true, false, not, ◌&&◌, ◌≡◌, refl, ◌⊎◌, Option, none, some, arith, is_some,
}
use philotes.Common.Actions.{Answer, done, raised, Ends, Meets, ◌>>=◌}
use philotes.Tenants.{
  admin, viewer, User, is_global_admin, other_role, TenantMember, tenant_role_permissions, TenantDb,
}
use philotes.Tenants.Requests.{has_text}
use philotes.Tenants.Store.{find_member}
use philotes.Tenants.Service.{member_permissions}
use philotes.Tenants.Handlers.{Handler}
use philotes.Tenants.Reads.{Frame}
use philotes.Tenants.Access.{
  TenantConfig, tenant_text, RequestKeys, Headers, extract_tenant, or_default, default_on_error,
  require_tenant, require_tenant_permission,
}

abbrev pub no_keys : RequestKeys
no_keys = record { tenant_id = none; tenant_context = none; tenant_role = none }

-- The middlewares of a route that needs a permission, in the order in which they are made to be used (no
-- route of the program uses them).
unfoldable pub permit : TenantConfig → Headers → Option User → String → Handler (Unit {0})
unfolding extract_tenant require_tenant require_tenant_permission
permit cfg headers auth permission = do
  found ← extract_tenant cfg headers no_keys
  keys ← require_tenant cfg auth found
  require_tenant_permission permission keys

-- Why a request with a permission is let through.
pub data MayPass (cfg : TenantConfig) (headers : Headers) (user : User) (permission : String)
    (db : TenantDb) : Type 0 where
  across :
      cfg.enabled ≡ true
      → (cfg.allow_cross_tenant_access && is_global_admin user.role) ≡ true
      → has_text permission (tenant_role_permissions admin) ≡ true
      → MayPass cfg headers user permission db
  as_member :
      (tenant : ℕ) (m : TenantMember)
      → cfg.enabled ≡ true
      → tenant_text cfg headers ≡ some (some tenant)
      → find_member tenant user.id db.members ≡ some m
      → (has_text permission (member_permissions m) ≡ true)
        ⊎ (has_text permission (tenant_role_permissions viewer) ≡ true)
      → MayPass cfg headers user permission db

-- The tables are those of the start.
abbrev pub SameMembers : TenantDb → TenantDb → Type 0
SameMembers a s = s.members ≡ a.members

pub frame-SameMembers : (a : TenantDb) → Frame (SameMembers a) (λ s. Unit {0})
frame-SameMembers a = record { past = λ s fs h. h; past_end = λ s fs h. h; ends = λ s h. tt }

or_default-Ends :
    {A : Type 0} (I : TenantDb → Type 0) (Q : A → TenantDb → Type 0) (d : A)
    (r : Answer ℕ A × TenantDb)
    → Ends Q I r
    → ((s : TenantDb) → I s → Q d s)
    → Ends Q (λ s. Unit {0}) (default_on_error d r)
or_default-Ends I Q d (done a, s) h k = h
or_default-Ends I Q d (raised x, s) h k = k s h

pub Meets-or_default :
    {A : Type 0} {I : TenantDb → Type 0} {Q : A → TenantDb → Type 0} (d : A) (m : Handler A)
    → Meets I m Q I
    → ((s : TenantDb) → I s → Q d s)
    → Meets I (or_default d m) Q (λ s. Unit {0})
unfolding or_default
Meets-or_default {I} {Q} d m h k = record { at = λ s i. or_default-Ends I Q d (m s) (h.at s i) k }

abbrev pub nobody : User
nobody = record { id = 0; role = other_role "" }

-- What is known besides the state.
pub holding :
    {A : Type 0} {P : TenantDb → Type 0} {K : Type 0} {m : Handler A} {Q : A → TenantDb → Type 0}
    {E : TenantDb → Type 0}
    → (K → Meets P m Q E)
    → Meets (λ s. P s × K) m Q E
holding h = record { at = λ s p. (h p.1).at s p.0 }

pub is_there :
    (o : Option TenantMember) (found : Bool)
    → found ≡ is_some o
    → not found ≡ false
    → (m : TenantMember) × (o ≡ some m)
is_there none found e is = absurd (ground (arith, e, is))
is_there (some m) found e is = (m, refl)
