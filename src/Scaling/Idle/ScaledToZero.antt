-- ===== src/Scaling/Idle/ScaledToZero.antt =====
-- Which policies a detector takes to be scaled to zero.
use Prim.Native.String.{String}
use text.Mathlib.Text.{◌==◌ as str_eq}
use text.Mathlib.TextEquality.{eq_iff}
use mathlib.Core.Path.{fun_ext}
use philotes.Common.{
  ℕ, ◌≡◌, refl, ap, ◌∙◌, inl, inr, Bool, true, false, not, ◌&&◌, ◌||◌, Option, none, some, List, [],
  ◌∷◌, if◌then◌else◌, Bool-cases, Option-cases, arith,
}
use philotes.Common.Int.{pos, ltb_ℤ}
use philotes.Common.Maps.{lookup, put, remove, lookup-put, lookup-without}
use philotes.Scaling.Idle.{
  WakeReason, IdleState, IdleRepository, Detector, become_idle, idle_duration, update_each,
  put_state, update_idle_states, record_activity, mark_scaled_to_zero, mark_woken, remove_policy,
}

pub data IdleCall : Type 0 where
  tick : IdleCall
  activity go_to_zero forget : String → IdleCall
  wake_up : String → WakeReason → IdleCall

-- A call at a reading of the clock, whatever the repository answers.
unfoldable pub idle_call : {repo : IdleRepository} → ℕ → IdleCall → Detector repo → Detector repo
idle_call now tick d = update_idle_states now d
idle_call now (activity id) d = (record_activity now id d).0
idle_call now (go_to_zero id) d = (mark_scaled_to_zero now id d).0
idle_call now (wake_up id reason) d = (mark_woken now id reason d).0
idle_call now (forget id) d = remove_policy id d

unfoldable pub idle_calls :
    {repo : IdleRepository} → List (ℕ × IdleCall) → Detector repo → Detector repo
unfolding idle_call
idle_calls [] d = d
idle_calls ((now, c) ∷ cs) d = idle_calls cs (idle_call now c d)

-- The abstract view: a set of policies.
unfoldable pub abstract_call : IdleCall → (String → Bool) → String → Bool
abstract_call tick z k = z k
abstract_call (activity id) z k = z k
abstract_call (go_to_zero id) z k = str_eq id k || z k
abstract_call (wake_up id reason) z k = not (str_eq id k) && z k
abstract_call (forget id) z k = not (str_eq id k) && z k

unfoldable pub abstract_calls : List (ℕ × IdleCall) → (String → Bool) → String → Bool
unfolding abstract_call
abstract_calls [] z = z
abstract_calls ((now, c) ∷ cs) z = abstract_calls cs (abstract_call c z)

abbrev zero_of : Option IdleState → Bool
zero_of none = false
zero_of (some s) = s.is_scaled_to_zero

-- Whether the detector takes a policy to be scaled to zero.
abbrev pub is_zero : {repo : IdleRepository} → Detector repo → String → Bool
is_zero d k = zero_of (lookup k d.states)

become_idle-zero :
    (now : ℕ) (s : IdleState) → (become_idle now s).is_scaled_to_zero ≡ s.is_scaled_to_zero
unfolding become_idle
become_idle-zero now s = elim (Option-cases (s.idle_since)) [
  | inr (t, x) ↦ ground (arith, x)
  | inl x ↦ elim (Bool-cases (ltb_ℤ (pos 0) (idle_duration now s))) [
    | inl y ↦ ground (arith, x, y)
    | inr y ↦ ground (arith, x, y)
  ]
]

update_each-zero :
    (repo : IdleRepository) (now : ℕ) (m : List (String × IdleState)) (store : repo.Store)
    (k : String)
    → zero_of (lookup k (update_each repo now m store).0) ≡ zero_of (lookup k m)
unfolding update_each lookup
update_each-zero repo now [] store k = refl
update_each-zero repo now ((id, s) ∷ m) store k = elim (Bool-cases (str_eq id k)) [
  | inl same ↦ rw (same) (become_idle-zero now s)
  | inr other ↦
      rw (other)
        (update_each-zero repo now m (repo.update_idle_state (become_idle now s) store).0 k)
]

zero-put :
    (id k : String) (s : IdleState) (m : List (String × IdleState))
    → zero_of (lookup k (put id s m))
      ≡ (if str_eq id k then s.is_scaled_to_zero else zero_of (lookup k m))
zero-put id k s m =
    rw (lookup-put id k s m)
      (elim (Bool-cases (str_eq id k)) [ inl x ↦ rw (x) refl | inr x ↦ rw (x) refl ])

zero-remove :
    (id k : String) (m : List (String × IdleState))
    → zero_of (lookup k (remove id m)) ≡ (not (str_eq id k) && zero_of (lookup k m))
zero-remove id k m =
    rw (lookup-without id k m)
      (elim (Bool-cases (str_eq id k)) [ inl x ↦ rw (x) refl | inr x ↦ rw (x) refl ])

if-true : (b c : Bool) → (if b then true else c) ≡ (b || c)
if-true true c = refl
if-true false c = refl

if-false : (b c : Bool) → (if b then false else c) ≡ (not b && c)
if-false true c = refl
if-false false c = refl

-- A state that is put with the flag that it had leaves the view.
zero-same :
    (id k : String) (s : IdleState) (m : List (String × IdleState))
    → s.is_scaled_to_zero ≡ zero_of (lookup id m)
    → zero_of (lookup k (put id s m)) ≡ zero_of (lookup k m)
zero-same id k s m e = zero-put id k s m ∙ elim (Bool-cases (str_eq id k)) [
  | inl x ↦ rw (x) (e ∙ ap (λ i. zero_of (lookup i m)) ((eq_iff id k).0 x))
  | inr x ↦ rw (x) refl
]

record_activity-zero :
    {repo : IdleRepository} (now : ℕ) (id k : String) (d : Detector repo)
    → is_zero (record_activity now id d).0 k ≡ is_zero d k
unfolding record_activity put_state
record_activity-zero {repo} now id k d = elim (Option-cases (lookup id d.states)) [
  | inl x ↦ rw (x, record_activity) (zero-same id k _ d.states (rw (x) refl))
  | inr (s, x) ↦ rw (x, record_activity) (zero-same id k _ d.states (rw (x) refl))
]

idle_call-zero :
    {repo : IdleRepository} (now : ℕ) (c : IdleCall) (d : Detector repo) (k : String)
    → is_zero (idle_call now c d) k ≡ abstract_call c (is_zero d) k
unfolding idle_call abstract_call update_idle_states mark_scaled_to_zero mark_woken put_state
    remove_policy
idle_call-zero {repo} now tick d k = update_each-zero repo now d.states d.store k
idle_call-zero now (activity id) d k = record_activity-zero now id k d
idle_call-zero now (go_to_zero id) d k =
    zero-put id k _ d.states ∙ if-true (str_eq id k) (is_zero d k)
idle_call-zero now (wake_up id reason) d k =
    zero-put id k _ d.states ∙ if-false (str_eq id k) (is_zero d k)
idle_call-zero now (forget id) d k = zero-remove id k d.states

-- A detector keeps the set of the policies that are scaled to zero, whatever its repository answers:
-- behind any calls, the flag of a policy is set exactly if, beginning with those whose flag was set,
-- `MarkScaledToZero` adds a policy, `MarkWoken` and `RemovePolicy` take it out, and neither activity nor
-- the ticks of the loop change anything.
pub idle_calls-refines :
    {repo : IdleRepository} (calls : List (ℕ × IdleCall)) (d : Detector repo) (k : String)
    → is_zero (idle_calls calls d) k ≡ abstract_calls calls (is_zero d) k
unfolding idle_calls abstract_calls
idle_calls-refines [] d k = refl
idle_calls-refines ((now, c) ∷ cs) d k =
    idle_calls-refines cs (idle_call now c d) k
    ∙ ap (λ z. abstract_calls cs z k) (fun_ext (λ k. idle_call-zero now c d k))
