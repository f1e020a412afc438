-- ===== src/Tenants/Requests.antt =====
-- internal/api/models/tenant.go: the requests and their validation, which gives the fields that are wrong.
use Prim.Native.String.{String}
use Prim.Native.Char.{code}
use text.Mathlib.Text.{◌==◌ as str_eq}
use philotes.Common.{
  ℕ, Bool, true, false, not, ◌&&◌, ◌||◌, Option, none, some, List, [], ◌∷◌, ◌++◌, length, leb, ltb,
  ◌==◌, if◌then◌else◌,
}
use philotes.Tenants.{TenantRole, admin, operator, viewer, custom, other, valid_tenant_permissions}

pub record CreateTenantRequest : Type 0 where
  pub name : String
  pub slug : String
  pub settings : ℕ

pub record UpdateTenantRequest : Type 0 where
  pub name : Option String
  pub slug : Option String
  pub is_active : Option Bool
  pub settings : Option ℕ

pub record AddMemberRequest : Type 0 where
  pub user_id : ℕ
  pub role : TenantRole
  pub custom_permissions : List String

pub record UpdateMemberRequest : Type 0 where
  pub role : Option TenantRole
  pub custom_permissions : Option (List String)

pub record CreateCustomRoleRequest : Type 0 where
  pub name : String
  pub description : String
  pub permissions : List String

pub record UpdateCustomRoleRequest : Type 0 where
  pub name : Option String
  pub description : Option String
  pub permissions : Option (List String)

-- Whether a text is in a list of texts.
unfoldable pub has_text : String → List String → Bool
has_text t [] = false
has_text t (s ∷ ss) = str_eq s t || has_text t ss

abbrev pub is_valid_permission : String → Bool
is_valid_permission p = has_text p valid_tenant_permissions

unfoldable pub validate_permissions : List String → List String
unfolding has_text
validate_permissions [] = []
validate_permissions (p ∷ ps) =
    let rest = validate_permissions ps in if is_valid_permission p then rest else p ∷ rest

abbrev pub is_valid_tenant_role : TenantRole → Bool
is_valid_tenant_role admin = true
is_valid_tenant_role operator = true
is_valid_tenant_role viewer = true
is_valid_tenant_role custom = true
is_valid_tenant_role (other s) = false

-- The code points of a text.
abbrev codes : String → List ℕ
codes String.[] = []
codes (String.◌∷◌ c s) = code c ∷ codes s

abbrev is_slug_end : ℕ → Bool
is_slug_end c = (leb b'a' c && leb c b'z') || (leb b'0' c && leb c b'9')

unfoldable slug_tail : List ℕ → Bool
slug_tail [] = true
slug_tail (c ∷ []) = is_slug_end c
slug_tail (c ∷ d ∷ cs) = (is_slug_end c || c == b'-') && slug_tail (d ∷ cs)

abbrev slug_codes : List ℕ → Bool
slug_codes [] = false
slug_codes (c ∷ cs) = is_slug_end c && slug_tail cs

-- `slugRegex`: up to 100 of a-z, 0-9 and hyphens, with no hyphen at either end.
unfoldable pub is_slug : String → Bool
unfolding slug_tail
is_slug s = leb (length (codes s)) 100 && slug_codes (codes s)

abbrev wrong : Bool → String → List String
wrong true field = field ∷ []
wrong false field = []

abbrev has_invalid : List String → Bool
has_invalid ps = ltb 0 (length (validate_permissions ps))

unfoldable pub validate_create : CreateTenantRequest → List String
unfolding is_slug
validate_create r = wrong (str_eq r.name "") "name" ++ wrong (not (is_slug r.slug)) "slug"

unfoldable pub validate_update : UpdateTenantRequest → List String
unfolding is_slug
validate_update r = elim (r.slug) [ none ↦ [] | some s ↦ wrong (not (is_slug s)) "slug" ]

unfoldable pub validate_add_member : AddMemberRequest → List String
unfolding validate_permissions
validate_add_member r =
    wrong (r.user_id == 0) "user_id"
    ++ wrong (not (is_valid_tenant_role r.role)) "role"
    ++ wrong (has_invalid r.custom_permissions) "custom_permissions"

-- A role of "" is a viewer.
unfoldable pub apply_defaults : AddMemberRequest → AddMemberRequest
apply_defaults r = elim (r.role) [
  | other s ↦ if str_eq s "" then record r { role = viewer } else r
  | admin ↦ r
  | operator ↦ r
  | viewer ↦ r
  | custom ↦ r
]

unfoldable pub validate_update_member : UpdateMemberRequest → List String
unfolding validate_permissions
validate_update_member r =
    elim (r.role) [ none ↦ [] | some t ↦ wrong (not (is_valid_tenant_role t)) "role" ]
    ++ elim (r.custom_permissions) [
      | none ↦ []
      | some ps ↦ wrong (has_invalid ps) "custom_permissions"
    ]

abbrev wrong_permissions : List String → List String
wrong_permissions [] = "permissions" ∷ []
wrong_permissions (p ∷ ps) = wrong (has_invalid (p ∷ ps)) "permissions"

unfoldable pub validate_create_role : CreateCustomRoleRequest → List String
unfolding validate_permissions
validate_create_role r = wrong (str_eq r.name "") "name" ++ wrong_permissions r.permissions

unfoldable pub validate_update_role : UpdateCustomRoleRequest → List String
unfolding validate_permissions
validate_update_role r = elim (r.permissions) [ none ↦ [] | some ps ↦ wrong_permissions ps ]
