-- ===== src/Tenants/Routes.antt =====
-- Every route keeps to the steps: what holds before a request and what the writes of its user make of it.
use philotes.Common.{refl, true, ℕ, ◌≡◌, Option, some, not, ◌||◌}
use philotes.Common.Actions.{
  Meets, Meets-pure, Meets-raise, Meets-if, Meets-bind, Meets-with_error, Meets-weaken, Meets-given,
}
use philotes.Tenants.{User, is_global_admin, TenantDb}
use philotes.Tenants.Requests.{
  CreateTenantRequest, UpdateTenantRequest, AddMemberRequest, UpdateMemberRequest,
  CreateCustomRoleRequest, UpdateCustomRoleRequest,
}
use philotes.Tenants.Service.{get_by_id, list_members, list_custom_roles, is_owner}
use philotes.Tenants.Handlers.{
  Reply, error_status, handle_create, handle_list, handle_get, handle_update, handle_delete,
  handle_list_members, handle_add_member, handle_update_member, handle_remove_member,
  handle_list_roles, handle_create_role, handle_update_role, handle_delete_role, Call, create_call,
  list_call, get_call, delete_call, list_members_call, list_roles_call, update_call,
  add_member_call, update_member_call, remove_member_call, delete_role_call, create_role_call,
  update_role_call, serve,
}
use philotes.Tenants.Reads.{Frame, knowing, Meets-get_by_id}
use philotes.Tenants.Writes.{
  Meets-update, Meets-delete, Meets-add_member, Meets-update_member, Meets-remove_member,
  Meets-create_custom_role, Meets-update_custom_role, Meets-delete_custom_role,
}
use philotes.Tenants.Creates.{Meets-create}
use philotes.Tenants.Steps.{
  makes_tenant, tenant_deleted, tenant_written, MayDelete, Steps, negated, Meets-require_admin,
  Meets-require_role_in,
}
use philotes.Tenants.Answers.{
  Ended, Meets-answer, Meets-list, Meets-list_by_user, Meets-list_members, Meets-list_custom_roles,
  Meets-signed_in, Meets-read,
}

module _ {I G : TenantDb → Type 0} (f : Frame I G) where
  module _ (auth : Option User) (call : Call)
      (steps : (user : User) → auth ≡ some user → Steps I G user call) where
    Meets-handle_create :
        (body : Option CreateTenantRequest)
        → makes_tenant call ≡ true
        → Meets I (handle_create auth body) (Ended G) G
    unfolding handle_create
    Meets-handle_create body making = Meets-given 401 auth _ f.ends (λ user e.
        Meets-given 400 body _ f.ends (λ req _.
          Meets-answer _ _ _
            (Meets-create f req user.id (λ db. (steps user e).creates req db making))))

    Meets-handle_list : Meets I (handle_list auth) (Ended G) G
    unfolding handle_list
    Meets-handle_list = Meets-given 401 auth _ f.ends (λ user e.
        Meets-bind _ _
          (Meets-with_error error_status _ (
            Meets-if (is_global_admin user.role) _ _ (λ _. Meets-list f)
              (λ _. Meets-list_by_user f user.id)))
          (λ ts. Meets-pure _ (λ s h. f.ends s h)))

    Meets-handle_get : (path : Option ℕ) → Meets I (handle_get auth path) (Ended G) G
    unfolding handle_get
    Meets-handle_get path =
        Meets-read f auth path get_by_id Reply.tenant_reply
          (λ id. Meets-weaken (Meets-get_by_id f id) (λ t s h. h.0))

    Meets-handle_list_members :
        (path : Option ℕ) → Meets I (handle_list_members auth path) (Ended G) G
    unfolding handle_list_members
    Meets-handle_list_members path =
        Meets-read f auth path list_members Reply.members_reply (Meets-list_members f)

    Meets-handle_list_roles : (path : Option ℕ) → Meets I (handle_list_roles auth path) (Ended G) G
    unfolding handle_list_roles
    Meets-handle_list_roles path =
        Meets-read f auth path list_custom_roles Reply.roles_reply (Meets-list_custom_roles f)

    Meets-handle_update :
        (path : Option ℕ) (body : Option UpdateTenantRequest)
        → ((id : ℕ) → path ≡ some id → tenant_written call ≡ some id)
        → Meets I (handle_update auth path body) (Ended G) G
    unfolding handle_update
    Meets-handle_update path body named = Meets-signed_in f auth path _ (λ user id e e'.
        Meets-bind _ _ (Meets-require_admin f user id) (λ u.
          Meets-given 400 body _ (λ s h. f.ends s h.0)
            (λ req _. Meets-answer _ _ _ (
              Meets-update (knowing f _ (λ db fs h. h)) id req
                (λ db h. (steps user e).updates id req db (named id e') h.0 h.1)))))

    Meets-handle_delete :
        (path : Option ℕ)
        → ((id : ℕ) → path ≡ some id → tenant_deleted call ≡ some id)
        → Meets I (handle_delete auth path) (Ended G) G
    unfolding handle_delete
    Meets-handle_delete path named = Meets-signed_in f auth path _ (λ user id e e'.
        Meets-bind _ _ (Meets-with_error error_status _ (Meets-get_by_id f id)) (λ t.
          Meets-bind {Q = λ u s. I s × MayDelete user id s} _ _
            (Meets-if (not (is_owner user.id t || is_global_admin user.role)) _ _
              (λ _. Meets-raise 403 (λ s h. f.ends s h.0))
              (λ is. Meets-pure tt (λ s h. (h.0, (t, h.1, negated _ is)))))
            (λ u. Meets-answer _ _ _ (
              Meets-delete (knowing f _ (λ db fs h. h)) id
                (λ db h. (steps user e).deletes id db (named id e') h.0 h.1)))))

    Meets-handle_add_member :
        (path : Option ℕ) (body : Option AddMemberRequest)
        → ((id : ℕ) → path ≡ some id → tenant_written call ≡ some id)
        → Meets I (handle_add_member auth path body) (Ended G) G
    unfolding handle_add_member
    Meets-handle_add_member path body named = Meets-signed_in f auth path _ (λ user id e e'.
        Meets-bind _ _ (Meets-require_admin f user id) (λ u.
          Meets-given 400 body _ (λ s h. f.ends s h.0)
            (λ req _. Meets-answer _ _ _ (
              Meets-add_member (knowing f _ (λ db fs h. h)) id req
                (λ db h new. (steps user e).adds_member id req db (named id e') h.0 h.1 new)))))

    Meets-handle_update_member :
        (path user_path : Option ℕ) (body : Option UpdateMemberRequest)
        → ((id : ℕ) → path ≡ some id → tenant_written call ≡ some id)
        → Meets I (handle_update_member auth path user_path body) (Ended G) G
    unfolding handle_update_member
    Meets-handle_update_member path user_path body named =
        Meets-signed_in f auth path _ (λ user id e e'.
          Meets-given 400 user_path _ f.ends (λ other _.
            Meets-bind _ _ (Meets-require_admin f user id) (λ u.
              Meets-given 400 body _ (λ s h. f.ends s h.0)
                (λ req _. Meets-answer _ _ _ (
                  Meets-update_member (knowing f _ (λ db fs h. h)) id other req (λ db h d.
                    (steps user e).updates_member id other req db (named id e') h.0 h.1 d))))))

    Meets-handle_remove_member :
        (path user_path : Option ℕ)
        → ((id : ℕ) → path ≡ some id → tenant_written call ≡ some id)
        → Meets I (handle_remove_member auth path user_path) (Ended G) G
    unfolding handle_remove_member
    Meets-handle_remove_member path user_path named = Meets-signed_in f auth path _ (λ user id e e'.
        Meets-given 400 user_path _ f.ends (λ other _.
          Meets-bind _ _ (Meets-require_admin f user id) (λ u. Meets-answer _ _ _ (
            Meets-remove_member (knowing f _ (λ db fs h. h)) id other (λ db m h found d.
              (steps user e).removes_member id other db m (named id e') h.0 h.1 found d)))))

    Meets-handle_create_role :
        (path : Option ℕ) (body : Option CreateCustomRoleRequest)
        → ((id : ℕ) → path ≡ some id → tenant_written call ≡ some id)
        → Meets I (handle_create_role auth path body) (Ended G) G
    unfolding handle_create_role
    Meets-handle_create_role path body named = Meets-signed_in f auth path _ (λ user id e e'.
        Meets-bind _ _ (Meets-require_admin f user id) (λ u.
          Meets-given 400 body _ (λ s h. f.ends s h.0)
            (λ req _. Meets-answer _ _ _ (
              Meets-create_custom_role (knowing f _ (λ db fs h. h)) id req
                (λ db h. (steps user e).creates_role id req db (named id e') h.0 h.1)))))

    Meets-handle_update_role :
        (path role_path : Option ℕ) (body : Option UpdateCustomRoleRequest)
        → ((id : ℕ) → path ≡ some id → tenant_written call ≡ some id)
        → Meets I (handle_update_role auth path role_path body) (Ended G) G
    unfolding handle_update_role
    Meets-handle_update_role path role_path body named =
        Meets-signed_in f auth path _ (λ user id e e'. Meets-given 400 role_path _ f.ends (λ role _.
          Meets-bind _ _ (Meets-require_admin f user id) (λ u.
            Meets-bind _ _ (Meets-require_role_in (knowing f _ (λ db fs h. h)) id role) (λ u.
              Meets-given 400 body _ (λ s h. f.ends s h.0.0)
                (λ req _. Meets-answer _ _ _ (
                  Meets-update_custom_role (knowing (knowing f _ (λ db fs h. h)) _ (λ db fs h. h))
                    role req
                    (λ db h.
                      (steps user e).updates_role id role req db (named id e') h.0.0 h.0.1
                        h.1)))))))

    Meets-handle_delete_role :
        (path role_path : Option ℕ)
        → ((id : ℕ) → path ≡ some id → tenant_written call ≡ some id)
        → Meets I (handle_delete_role auth path role_path) (Ended G) G
    unfolding handle_delete_role
    Meets-handle_delete_role path role_path named = Meets-signed_in f auth path _ (λ user id e e'.
        Meets-given 400 role_path _ f.ends (λ role _.
          Meets-bind _ _ (Meets-require_admin f user id) (λ u.
            Meets-bind _ _ (Meets-require_role_in (knowing f _ (λ db fs h. h)) id role) (λ u.
              Meets-answer _ _ _ (
                Meets-delete_custom_role (knowing (knowing f _ (λ db fs h. h)) _ (λ db fs h. h))
                  role
                  (λ db h.
                    (steps user e).deletes_role id role db (named id e') h.0.0 h.0.1 h.1))))))

  pub Meets-serve :
      (auth : Option User) (call : Call)
      → ((user : User) → auth ≡ some user → Steps I G user call)
      → Meets I (serve auth call) (Ended G) G
  unfolding serve
  Meets-serve auth (create_call body) st = Meets-handle_create auth (create_call body) st body refl
  Meets-serve auth list_call st = Meets-handle_list auth list_call st
  Meets-serve auth (get_call path) st = Meets-handle_get auth (get_call path) st path
  Meets-serve auth (update_call path body) st =
      Meets-handle_update auth (update_call path body) st path body (λ id e. e)
  Meets-serve auth (delete_call path) st =
      Meets-handle_delete auth (delete_call path) st path (λ id e. e)
  Meets-serve auth (list_members_call path) st =
      Meets-handle_list_members auth (list_members_call path) st path
  Meets-serve auth (add_member_call path body) st =
      Meets-handle_add_member auth (add_member_call path body) st path body (λ id e. e)
  Meets-serve auth (update_member_call path user body) st =
      Meets-handle_update_member auth (update_member_call path user body) st path user body
        (λ id e. e)
  Meets-serve auth (remove_member_call path user) st =
      Meets-handle_remove_member auth (remove_member_call path user) st path user (λ id e. e)
  Meets-serve auth (list_roles_call path) st =
      Meets-handle_list_roles auth (list_roles_call path) st path
  Meets-serve auth (create_role_call path body) st =
      Meets-handle_create_role auth (create_role_call path body) st path body (λ id e. e)
  Meets-serve auth (update_role_call path role body) st =
      Meets-handle_update_role auth (update_role_call path role body) st path role body (λ id e. e)
  Meets-serve auth (delete_role_call path role) st =
      Meets-handle_delete_role auth (delete_role_call path role) st path role (λ id e. e)
