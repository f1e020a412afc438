-- ===== src/Tenants/Tests.antt =====
-- A tenant with an owner and a viewer: requests that change it, and such as are refused.
use Prim.Native.String.{String}
use text.Mathlib.Text.{◌==◌ as str_eq}
use philotes.Common.{
  if◌then◌else◌, ◌==◌, ◌||◌, ◌⊎◌, ℕ, ◌+◌, ◌≤◌, Bool, true, false, ◌≡◌, refl, Option, none, some,
  List, [], ◌∷◌, All, arith,
}
use philotes.Common.Errors.{plain}
use philotes.Common.Actions.{with_error, Answer, done, raised}
use philotes.Tenants.{
  admin, operator, viewer, custom, User, global_viewer, TenantMember, TenantDb,
  tenant_role_permissions,
}
use philotes.Tenants.Requests.{UpdateMemberRequest, is_slug}
use philotes.Tenants.Service.{get_by_slug, get_default_tenant}
use philotes.Tenants.Handlers.{
  create_call, list_call, get_call, update_member_call, remove_member_call, delete_role_call, serve,
  members_reply, list_members_call, Reply,
}
use philotes.Tenants.Access.{
  TenantConfig, TenantContext, has_minimum_role, has_all_permissions, require_tenant_role,
  tenant_id_or_default,
}
use philotes.Tenants.Counts.{count}
use philotes.Tenants.Admins.{Governed}
use philotes.Tenants.Governed.{Request, serve_all, serve_all-Governed}
use philotes.Tenants.Outside.{SameTables, has_role_id}
use philotes.Tenants.Authority.{serve-Authorised, Change}
use philotes.Tenants.Permit.{permit, MayPass}
use philotes.Tenants.Permitted.{permit-MayPass}
use philotes.Tenants.Readers.{Reader, serve-Reader}
use philotes.Tenants.Ranks.{standing, has_minimum_role-permissions}

abbrev member : ℕ → TenantMember
member user = record {
  id = user + 10;
  tenant_id = 1;
  user_id = user;
  role = if user == 7 then admin else viewer;
  custom_permissions = if user == 7 then [] else "sources:write" ∷ [];
  created_at = 0;
  updated_at = 0;
}

abbrev db : TenantDb
db = record {
  tenants =
      record {
        id = 1;
        name = "Default";
        slug = "default";
        owner_user_id = some 7;
        is_active = true;
        settings = 0;
        created_at = 0;
        updated_at = 0;
      }
      ∷ [];
  members = member 7 ∷ member 8 ∷ [];
  roles =
      record {
        id = 30;
        tenant_id = 1;
        name = "loader";
        description = "";
        permissions = "sources:read" ∷ [];
        created_at = 0;
        updated_at = 0;
      }
      ∷ [];
  users = 7 ∷ 8 ∷ 9 ∷ [];
  next_id = 40;
  now = 5;
  faults = [];
}

abbrev owner : User
owner = record { id = 7; role = global_viewer }

abbrev reader : User
reader = record { id = 8; role = global_viewer }

abbrev to_viewer : UpdateMemberRequest
to_viewer = record { role = some viewer; custom_permissions = none }

abbrev to_admin : UpdateMemberRequest
to_admin = record { role = some admin; custom_permissions = none }

abbrev status : Answer ℕ (ℕ × Reply) × TenantDb → ℕ
status (done (n, reply), s) = n
status (raised n, s) = n

-- The last admin is not demoted; a second one is made, and then the first one may go.
abbrev requests : List Request
requests =
    record {
      auth = some owner;
      call = update_member_call (some 1) (some 7) (some to_viewer);
      now = 6;
      faults = [];
    }
    ∷ record {
      auth = some owner;
      call = update_member_call (some 1) (some 8) (some to_admin);
      now = 7;
      faults = [];
    }
    ∷ record {
      auth = some reader;
      call = update_member_call (some 1) (some 7) (some to_viewer);
      now = 8;
      faults = [];
    }
    ∷ record {
      auth = some reader;
      call = delete_role_call (some 1) (some 30);
      now = 9;
      faults = none ∷ some (plain 3) ∷ [];
    }
    ∷ []

last_admin_stays :
    status (serve (some owner) (update_member_call (some 1) (some 7) (some to_viewer)) db) ≡ 403
unfolding serve philotes.Common.Actions.◌>>=◌ with_error
last_admin_stays = refl

owner_stays : status (serve (some owner) (remove_member_call (some 1) (some 7)) db) ≡ 403
unfolding serve philotes.Common.Actions.◌>>=◌ with_error
owner_stays = refl

reader_refused : status (serve (some reader) (remove_member_call (some 1) (some 8)) db) ≡ 403
unfolding serve philotes.Common.Actions.◌>>=◌ with_error
reader_refused = refl

nobody_refused : status (serve none list_call db) ≡ 401
unfolding serve philotes.Common.Actions.◌>>=◌
nobody_refused = refl

bad_path_refused : status (serve (some owner) (get_call none) db) ≡ 400
unfolding serve philotes.Common.Actions.◌>>=◌
bad_path_refused = refl

slug_refused :
    status (
      serve
        (some owner)
        (create_call (some (record { name = "Two"; slug = "default"; settings = 0 })))
        db)
    ≡ 409
unfolding serve philotes.Common.Actions.◌>>=◌ with_error
slug_refused = refl

created :
    status (
      serve
        (some reader)
        (create_call (some (record { name = "Two"; slug = "two-2"; settings = 0 })))
        db)
    ≡ 201
unfolding serve philotes.Common.Actions.◌>>=◌ with_error
created = refl

-- A failed second row takes the first one back.
undone_create :
    (serve
      (some reader)
      (create_call (some (record { name = "Two"; slug = "two-2"; settings = 0 })))
      (record db { faults = none ∷ none ∷ some (plain 3) ∷ [] })).1.tenants
    ≡ db.tenants
unfolding serve philotes.Common.Actions.◌>>=◌ with_error
undone_create = refl

-- The row is changed, and the answer is an error: the row could not be read again.
changed_but_failed :
    (status (
        serve
          (some owner)
          (update_member_call (some 1) (some 8) (some to_admin))
          (record db { faults = none ∷ none ∷ none ∷ some (plain 3) ∷ [] }))
      ≡ 500)
    × ((serve
          (some owner)
          (update_member_call (some 1) (some 8) (some to_admin))
          (record db { faults = none ∷ none ∷ none ∷ some (plain 3) ∷ [] })).1.members
        ≡ member 7 ∷ record (member 8) { role = admin; updated_at = 5 } ∷ [])
unfolding serve philotes.Common.Actions.◌>>=◌ with_error
changed_but_failed = (refl, refl)

slugs : (is_slug "a-1" ≡ true) × (is_slug "a-" ≡ false) × (is_slug "A" ≡ false)
unfolding is_slug
slugs = (refl, refl, refl)

db-Governed : Governed db
unfolding count
db-Governed = record { led = (ground (arith), tt); once = λ tenant user. ground (arith) }

serve_all-Governed_example : Governed (serve_all requests db)
serve_all-Governed_example = serve_all-Governed requests db db-Governed

role_keys : (id : ℕ) → count (has_role_id id) db.roles ≤ 1
unfolding count
role_keys id = ground (arith)

serve-Authorised_example :
    SameTables db (serve (some owner) (delete_role_call (some 1) (some 30)) db).1
    ⊎ ((user : User) × (some owner ≡ some user)
        × Change user
            (delete_role_call (some 1) (some 30))
            db
            (serve (some owner) (delete_role_call (some 1) (some 30)) db).1)
serve-Authorised_example =
    serve-Authorised (some owner) (delete_role_call (some 1) (some 30)) db role_keys

abbrev cfg : TenantConfig
cfg = record {
  enabled = true;
  has_service = true;
  tenant_header = "X-Tenant-ID";
  default_tenant_id = some 1;
  allow_cross_tenant_access = false;
}

abbrev headers : String → Option (Option ℕ)
headers name = if str_eq name "X-Tenant-ID" then some (some 1) else none

permit-MayPass_example :
    (user : User) × (some reader ≡ some user) × MayPass cfg headers user "sources:write" db
unfolding permit philotes.Common.Actions.◌>>=◌ with_error
permit-MayPass_example = permit-MayPass cfg headers (some reader) "sources:write" db db refl

abbrev loader : TenantContext
loader = record { tenant_id = 1; role = custom; permissions = "sources:read" ∷ [] }

has_minimum_role-permissions_example : has_minimum_role loader operator ≡ (
    has_all_permissions (standing custom loader.permissions) (tenant_role_permissions operator)
    || false)
has_minimum_role-permissions_example = has_minimum_role-permissions loader operator refl

reader_permitted : permit cfg headers (some reader) "sources:write" db ≡ (done tt, db)
unfolding permit philotes.Common.Actions.◌>>=◌ with_error
reader_permitted = refl

reader_not_permitted : permit cfg headers (some reader) "roles:write" db ≡ (raised 403, db)
unfolding permit philotes.Common.Actions.◌>>=◌ with_error
reader_not_permitted = refl

-- The permissions of a member that cannot be read are a viewer's.
read_with_faults :
    (permit cfg headers
      (some reader)
      "sources:read"
      (record db { faults = none ∷ some (plain 3) ∷ some (plain 3) ∷ [] })).0
    ≡ done tt
unfolding permit philotes.Common.Actions.◌>>=◌ with_error
read_with_faults = refl

-- Without multi-tenancy nobody is let through.
disabled_refuses :
    permit (record cfg { enabled = false }) headers (some reader) "sources:read" db
    ≡ (raised 403, db)
unfolding permit philotes.Common.Actions.◌>>=◌
disabled_refuses = refl

custom_is_viewer :
    (require_tenant_role viewer
      (record {
        tenant_id = none;
        tenant_context = some (record loader { permissions = [] });
        tenant_role = none;
      })
      db).0
    ≡ done tt
unfolding require_tenant_role philotes.Common.Actions.◌>>=◌
custom_is_viewer = refl

by_slug :
    ((get_by_slug "default" db).1 ≡ db)
    × (tenant_id_or_default
          (record { tenant_id = none; tenant_context = none; tenant_role = none })
          none
        ≡ 1)
unfolding get_by_slug with_error philotes.Common.Actions.◌>>=◌ tenant_id_or_default
by_slug = (refl, refl)

default_found : (get_default_tenant db).1 ≡ db
unfolding get_default_tenant with_error philotes.Common.Actions.◌>>=◌
default_found = refl

abbrev read_reply : ℕ × Reply
read_reply = (200, members_reply (member 7 ∷ member 8 ∷ []))

serve-Reader_example : Reader (some reader) 1 db
unfolding serve philotes.Common.Actions.◌>>=◌ with_error
serve-Reader_example =
    serve-Reader (some reader) (list_members_call (some 1)) 1 db db read_reply refl refl
