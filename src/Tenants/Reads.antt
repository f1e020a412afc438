-- ===== src/Tenants/Reads.antt =====
-- Rules for the statements that read: what was found holds of the tables as they stand, up to the next write.
use Prim.Native.String.{String}
use philotes.Common.{ℕ, ◌≡◌, refl, sym, ◌∙◌, Option, none, some, List, [], ◌∷◌, elem}
use philotes.Common.Errors.{GoError, first_fault, other_faults}
use philotes.Common.Actions.{
  Answer, done, raised, some_or, Ends, Meets, Meets-pure, Meets-raise, Meets-some_or, Meets-if,
  Meets-bind, Meets-with_error,
}
use philotes.Tenants.{
  TenantError, tenant_missing, member_missing, user_missing, role_missing, invalid, database,
  TenantDb,
}
use philotes.Tenants.Store.{
  past_fault, statement, query, effect, write, find_tenant, find_member, find_role, get_tenant,
  store_get_member, get_role, get_user,
}
use philotes.Tenants.Service.{validated, get_by_id, get_member, tenant_error, member_error}

-- What holds before a call, and what has to hold when it ends. Neither is about the faults to come.
pub record Frame (I G : TenantDb → Type 0) : Type 0 where
  pub past : (db : TenantDb) (fs : List (Option GoError)) → I db → I (record db { faults = fs })
  pub past_end : (db : TenantDb) (fs : List (Option GoError)) → G db → G (record db { faults = fs })
  pub ends : (db : TenantDb) → I db → G db

module _ {I G : TenantDb → Type 0} (f : Frame I G) where
  pub knowing :
      (K : TenantDb → Type 0)
      → ((db : TenantDb) (fs : List (Option GoError)) → K db → K (record db { faults = fs }))
      → Frame (λ s. I s × K s) G
  knowing K k = record {
    past = λ db fs h. (f.past db fs h.0, k db fs h.1);
    past_end = f.past_end;
    ends = λ db h. f.ends db h.0;
  }

  pub ended : Frame G G
  ended = record { past = f.past_end; past_end = f.past_end; ends = λ db h. h }

  statement-Ends :
      {A : Type 0} (Q : A → TenantDb → Type 0) (code : ℕ)
      (m : TenantDb → Answer TenantError A × TenantDb)
      → ((db : TenantDb) → I db → Ends Q G (m db))
      → (o : Option GoError) (db : TenantDb) → I db
      → Ends {X = TenantError} Q G
          (elim o [ some x ↦ (raised (database code x), past_fault db) | none ↦ m (past_fault db) ])
  statement-Ends Q code m k (some x) db h =
      f.ends (past_fault db) (f.past db (other_faults db.faults) h)
  statement-Ends Q code m k none db h = k (past_fault db) (f.past db (other_faults db.faults) h)

  pub Meets-statement :
      {A : Type 0} (Q : A → TenantDb → Type 0) (code : ℕ)
      (m : TenantDb → Answer TenantError A × TenantDb)
      → ((db : TenantDb) → I db → Ends Q G (m db))
      → Meets I (statement code m) Q G
  unfolding statement
  Meets-statement Q code m k = record {
    at = λ db h. statement-Ends Q code m k (first_fault db.faults) db h;
  }

  pub Meets-query :
      {A : Type 0} (code : ℕ) (q : TenantDb → A) → Meets I (query code q) (λ a s. I s × (a ≡ q s)) G
  unfolding query
  Meets-query code q =
      Meets-statement (λ a s. I s × (a ≡ q s)) code (λ db. (done (q db), db)) (λ db h. (h, refl))

  effect-Ends :
      {A : Type 0} (o : Option TenantError) (a : A) (changed db : TenantDb)
      → G db
      → (o ≡ none → G changed)
      → Ends (λ a s. G s) G (effect o a changed db)
  effect-Ends (some x) a changed db k w = k
  effect-Ends none a changed db k w = w refl

  pub Meets-write :
      {A : Type 0} (code : ℕ) (refusal : TenantDb → Option TenantError) (value : TenantDb → A)
      (change : TenantDb → TenantDb)
      → ((db : TenantDb) → I db → refusal db ≡ none → G (change db))
      → Meets I (write code refusal value change) (λ a s. G s) G
  unfolding write
  Meets-write code refusal value change w =
      Meets-statement (λ a s. G s) code (λ db. effect (refusal db) (value db) (change db) db)
        (λ db h. effect-Ends (refusal db) (value db) (change db) db (f.ends db h) (w db h))

  -- What a query finds, or else an error.
  pub Meets-found :
      {A : Type 0} (x : TenantError) (q : TenantDb → Option A) (o : Option A)
      → Meets (λ s. I s × (o ≡ q s)) (some_or x o) (λ a s. I s × (q s ≡ some a)) G
  Meets-found x q o = Meets-some_or x o (λ s h. f.ends s h.0) (λ a e s h. (h.0, sym h.1 ∙ e))

  pub Meets-get_tenant :
      (id : ℕ) → Meets I (get_tenant id) (λ t s. I s × (find_tenant id s.tenants ≡ some t)) G
  unfolding get_tenant
  Meets-get_tenant id =
      Meets-bind _ _ (Meets-query 1 (λ db. find_tenant id db.tenants))
        (λ o. Meets-found tenant_missing (λ db. find_tenant id db.tenants) o)

  pub Meets-get_by_id :
      (id : ℕ) → Meets I (get_by_id id) (λ t s. I s × (find_tenant id s.tenants ≡ some t)) G
  unfolding get_by_id
  Meets-get_by_id id = Meets-with_error (tenant_error 2) _ (Meets-get_tenant id)

  pub Meets-store_get_member :
      (tenant user : ℕ)
      → Meets I
          (store_get_member tenant user)
          (λ m s. I s × (find_member tenant user s.members ≡ some m))
          G
  unfolding store_get_member
  Meets-store_get_member tenant user =
      Meets-bind _ _ (Meets-query 6 (λ db. find_member tenant user db.members))
        (λ o. Meets-found member_missing (λ db. find_member tenant user db.members) o)

  pub Meets-get_member :
      (tenant user : ℕ)
      → Meets I
          (get_member tenant user)
          (λ m s. I s × (find_member tenant user s.members ≡ some m))
          G
  unfolding get_member
  Meets-get_member tenant user =
      Meets-with_error (member_error 10) _ (Meets-store_get_member tenant user)

  pub Meets-get_role :
      (id : ℕ) → Meets I (get_role id) (λ r s. I s × (find_role id s.roles ≡ some r)) G
  unfolding get_role
  Meets-get_role id =
      Meets-bind _ _ (Meets-query 15 (λ db. find_role id db.roles))
        (λ o. Meets-found role_missing (λ db. find_role id db.roles) o)

  pub Meets-get_user : (id : ℕ) → Meets I (get_user id) (λ u s. I s) G
  unfolding get_user
  Meets-get_user id = Meets-bind _ _ (Meets-query 20 (λ db. elem id db.users)) (λ b.
      Meets-if b _ _ (λ _. Meets-pure tt (λ s h. h.0))
        (λ _. Meets-raise user_missing (λ s h. f.ends s h.0)))

  pub Meets-validated : (fields : List String) → Meets I (validated fields) (λ u s. I s) G
  Meets-validated [] = Meets-pure tt (λ s h. h)
  Meets-validated (x ∷ xs) = Meets-raise (invalid (x ∷ xs)) (λ s h. f.ends s h)
