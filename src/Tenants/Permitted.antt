-- ===== src/Tenants/Permitted.antt =====
-- What the middlewares let through.
use Prim.Native.String.{String}
use philotes.Common.{◌≡◌, refl, subst, Option, none, some}
use philotes.Common.Actions.{done, Ends}
use philotes.Tenants.{User, TenantDb}
use philotes.Tenants.Access.{TenantConfig, Headers}
use philotes.Tenants.Permit.{permit, MayPass}
use philotes.Tenants.Vouched.{Meets-permit, Meets-anonymous}

-- If a request with a permission passes the middlewares, then a user has signed in, and either it is a global
-- admin where these may go across tenants, and the permission is one of a tenant's admin; or the headers name a
-- tenant with the user as a member, and the permission is one of the member's, or one of a viewer's, which are
-- taken if the member cannot be read a second time. Without multi-tenancy no request passes.
pub permit-MayPass :
    (cfg : TenantConfig) (headers : Headers) (auth : Option User) (permission : String)
    (db db' : TenantDb)
    → permit cfg headers auth permission db ≡ (done tt, db')
    → (user : User) × (auth ≡ some user) × MayPass cfg headers user permission db
permit-MayPass cfg headers (some user) permission db db' e = (
  user,
  refl,
  subst (Ends (λ u s. MayPass cfg headers user permission db) (λ s. Unit {0})) e
      ((Meets-permit cfg headers db user (some user) permission refl).at db refl),
)
permit-MayPass cfg headers none permission db db' e = absurd (
    subst (Ends (λ u s. ⊥) (λ s. Unit {0})) e
      ((Meets-anonymous cfg headers db permission).at db refl))
