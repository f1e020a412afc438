-- ===== src/Tenants/Creates.antt =====
-- A rule for `TenantService.Create`, whose two rows are written in one transaction.
use Prim.Native.String.{String}
use philotes.Common.{ℕ, ◌≡◌, refl, ap, subst, Option, none, some, [], List}
use philotes.Common.Errors.{GoError}
use philotes.Common.Actions.{
  Answer, done, raised, Ends, Meets, Meets-pure, Meets-bind, Meets-with_error,
}
use philotes.Tenants.{wrapped_error, TenantError, Tenant, TenantDb, Stored, admin}
use philotes.Tenants.Requests.{CreateTenantRequest, validate_create}
use philotes.Tenants.Store.{
  write, undone, transaction, insert_tenant, create_with_owner, new_tenant, with_tenant,
  refused_tenant, store_add_member, find_member, refused_member, new_member, with_member, effect,
}
use philotes.Tenants.Service.{create, tenant_error}
use philotes.Tenants.Writes.{not_found_member}
use philotes.Tenants.Reads.{Frame, knowing, Meets-statement, Meets-query, Meets-validated}

module _ {I G : TenantDb → Type 0} (f : Frame I G) where
  undone-Ends :
      {A : Type 0} (Q : A → TenantDb → Type 0) (db : TenantDb) (r : Answer TenantError A × TenantDb)
      → I db
      → Ends Q (λ s. Unit {0}) r
      → Ends Q G (undone db r)
  undone-Ends Q db (done a, s) i h = h
  undone-Ends Q db (raised x, s) i h =
      f.ends (record db { faults = s.faults }) (f.past db s.faults i)

  Meets-transaction :
      {A : Type 0} {Q : A → TenantDb → Type 0} (m : Stored A)
      → Meets I m Q (λ s. Unit {0})
      → Meets I (transaction m) Q G
  unfolding transaction
  Meets-transaction {Q} m k = record { at = λ db i. undone-Ends Q db (m db) i (k.at db i) }

effect_free-Ends :
    {A : Type 0} (Q : A → TenantDb → Type 0) (o : Option TenantError) (a : A)
    (changed db : TenantDb)
    → (o ≡ none → Q a changed)
    → Ends Q (λ s. Unit {0}) (effect o a changed db)
effect_free-Ends Q (some x) a changed db w = tt
effect_free-Ends Q none a changed db w = w refl

-- What the first row leaves.
abbrev Half : (TenantDb → Type 0) → String → String → ℕ → ℕ → Tenant → TenantDb → Type 0
Half I name slug owner settings t s =
    (db : TenantDb) × I db
    × (t ≡ new_tenant db name slug owner settings)
    × (s ≡ with_tenant name slug owner settings db)

free_frame :
    {P : TenantDb → Type 0}
    → ((db : TenantDb) (fs : List (Option GoError)) → P db → P (record db { faults = fs }))
    → Frame P (λ s. Unit {0})
free_frame p = record { past = p; past_end = λ s fs h. h; ends = λ s h. tt }

-- The owner is no member of the tenant when the second row is written.
fresh :
    (req : CreateTenantRequest) (owner : ℕ) (t : Tenant) (db s : TenantDb)
    → t ≡ new_tenant db req.name req.slug owner req.settings
    → s ≡ with_tenant req.name req.slug owner req.settings db
    → refused_member t.id owner s ≡ none
    → find_member db.next_id owner db.members ≡ none
fresh req owner t db s et es e = not_found_member (find_member db.next_id owner db.members) _ (
    subst
      (λ x. refused_member x.id owner (with_tenant req.name req.slug owner req.settings db) ≡ none)
      et (subst (λ x. refused_member t.id owner x ≡ none) es e))

-- Both rows, for an owner.
abbrev pub with_tenant_and_owner : CreateTenantRequest → ℕ → TenantDb → TenantDb
with_tenant_and_owner req owner db =
    with_member db.next_id owner admin [] (with_tenant req.name req.slug owner req.settings db)

module _ {I G : TenantDb → Type 0} (f : Frame I G) where
  Half-frame :
      (name slug : String) (owner settings : ℕ) (t : Tenant)
      → Frame (Half I name slug owner settings t) (λ s. Unit {0})
  Half-frame name slug owner settings t = record {
    past = λ s fs h. (
      record h.0 { faults = fs },
      f.past h.0 fs h.1,
      h.2,
      ap {A = TenantDb} (λ d. record d { faults = fs }) h.3,
    );
    past_end = λ s fs h. h;
    ends = λ s h. tt;
  }

  pub Meets-create :
      (req : CreateTenantRequest) (owner : ℕ)
      → ((db : TenantDb)
          → I db
          → find_member db.next_id owner db.members ≡ none
          → G (with_tenant_and_owner req owner db))
      → Meets I (create req owner) (λ t s. G s) G
  unfolding create create_with_owner insert_tenant store_add_member write
  Meets-create req owner w = Meets-bind _ _ (Meets-validated f (validate_create req)) (λ u.
      Meets-bind _ _
        (Meets-with_error (tenant_error 1) _ (
          Meets-bind _ _ (Meets-query f 12 (λ db. tt)) (λ u.
            Meets-transaction (knowing f _ (λ db fs h. h)) {Q = λ made s. G s} _ (
              Meets-bind {Q = Half I req.name req.slug owner req.settings} _ _
                (Meets-statement (free_frame (λ db fs h. (f.past db fs h.0, h.1)))
                  (Half I req.name req.slug owner req.settings) 13
                  (λ db.
                    effect (refused_tenant req.slug owner db)
                      (new_tenant db req.name req.slug owner req.settings)
                      (with_tenant req.name req.slug owner req.settings db) db)
                  (λ db h.
                    effect_free-Ends (Half I req.name req.slug owner req.settings) _ _ _ _
                      (λ _. (db, h.0, refl, refl))))
                (λ t.
                  Meets-bind {Q = λ m s. G s} _ _
                    (Meets-with_error (wrapped_error 14) _ (
                      Meets-statement (Half-frame req.name req.slug owner req.settings t)
                        (λ m s. G s) 5
                        (λ db.
                          effect (refused_member t.id owner db) (new_member db t.id owner admin [])
                            (with_member t.id owner admin [] db) db)
                        (λ s h.
                          effect_free-Ends (λ m s. G s) _ _ _ _
                            (λ e. rw (h.2, h.3) (w h.0 h.1 (fresh req owner t h.0 s h.2 h.3 e))))))
                    (λ m.
                      Meets-bind _ _ (Meets-query (free_frame f.past_end) 21 (λ db. tt))
                        (λ u. Meets-pure (t, m) (λ s h. h.0))))))))
        (λ made. Meets-pure made.0 (λ s h. h)))
