-- ===== src/Tenants/Store/Creation.antt =====
-- `TenantRepository.CreateWithOwner`: two rows in one transaction (internal/api/repositories/tenant.go).
use Prim.Native.String.{String}
use philotes.Common.{ℕ, ◌+◌, true, not, Option, some, [], ◌∷◌, ◌++◌, elem, if◌then◌else◌}
use philotes.Common.Actions.{with_error, Answer, done, raised, pure, ◌>>=◌, ◌>>◌}
use philotes.Tenants.{
  wrapped_error, admin, Tenant, TenantMember, TenantError, slug_taken, database, TenantDb, Stored,
}
use philotes.Tenants.Store.Statements.{foreign_key, query, write, refuse_if, slug_used}
use philotes.Tenants.Store.Members.{store_add_member}

abbrev pub new_tenant : TenantDb → String → String → ℕ → ℕ → Tenant
new_tenant db name slug owner settings = record {
  id = db.next_id;
  name = name;
  slug = slug;
  owner_user_id = some owner;
  is_active = true;
  settings = settings;
  created_at = db.now;
  updated_at = db.now;
}

abbrev pub with_tenant : String → String → ℕ → ℕ → TenantDb → TenantDb
with_tenant name slug owner settings db = record db {
  tenants = db.tenants ++ (new_tenant db name slug owner settings ∷ []);
  next_id = db.next_id + 1;
}

abbrev pub refused_tenant : String → ℕ → TenantDb → Option TenantError
refused_tenant slug owner db =
    if slug_used slug db.next_id db.tenants
    then some slug_taken
    else refuse_if (not (elem owner db.users)) (database 13 foreign_key)

unfoldable pub insert_tenant : String → String → ℕ → ℕ → Stored Tenant
unfolding write
insert_tenant name slug owner settings =
    write 13 (refused_tenant slug owner) (λ db. new_tenant db name slug owner settings)
      (with_tenant name slug owner settings)

-- An error inside of a transaction leaves the tables as they were.
abbrev pub undone :
    {A : Type 0} → TenantDb → Answer TenantError A × TenantDb → Answer TenantError A × TenantDb
undone db (done a, db') = (done a, db')
undone db (raised x, db') = (raised x, record db { faults = db'.faults })

unfoldable pub transaction : {A : Type 0} → Stored A → Stored A
transaction m db = undone db (m db)

unfoldable pub create_with_owner : String → String → ℕ → ℕ → Stored (Tenant × TenantMember)
unfolding query transaction insert_tenant store_add_member
create_with_owner name slug owner settings = do
  query 12 (λ db. tt)
  transaction (do
    tenant ← insert_tenant name slug owner settings
    member ← with_error (wrapped_error 14) (store_add_member tenant.id owner admin [])
    query 21 (λ db. tt)
    pure (tenant, member))
