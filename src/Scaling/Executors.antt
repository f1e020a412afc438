-- ===== src/Scaling/Executors.antt =====
-- internal/scaling/executor.go: the executors that keep a map of replicas, and several in sequence.
use Prim.Native.String.{String, ◌++◌}
use text.Mathlib.Text.{◌==◌ as str_eq}
use philotes.Common.{
  ℕ, ◌≡◌, refl, ◌↔◌, inl, inr, Bool, Option, none, some, List, [], ◌∷◌, if◌then◌else◌, arith,
  Option-cases,
}
use philotes.Common.Errors.{GoError, plain, Fallible, ok, err}
use philotes.Common.Int.{ℤ, pos}
use philotes.Common.Maps.{lookup, put, lookup-put}
use philotes.Scaling.{TargetType, cdc_worker, trino, rising_wave, nodes, no_target}
use philotes.Scaling.Manager.{Executor}

abbrev target_text : TargetType → String
target_text cdc_worker = "cdc-worker"
target_text trino = "trino"
target_text rising_wave = "risingwave"
target_text nodes = "nodes"
target_text (no_target s) = s

unfoldable pub target_key : TargetType → Option String → String
target_key kind none = target_text kind
target_key kind (some id) = target_text kind ++ (":" ++ id)

-- A target without an entry has one replica.
unfoldable pub current_of : TargetType → Option String → List (String × ℤ) → ℤ
current_of kind id m = elim (lookup (target_key kind id) m) [ some n ↦ n | none ↦ pos 1 ]

unfoldable pub keda_scale :
    TargetType → Option String → ℤ → Bool → List (String × ℤ) → List (String × ℤ) × Option GoError
keda_scale kind id n dry_run m = (if dry_run then m else put (target_key kind id) n m, none)

abbrev pub keda : Executor
keda = record {
  Target = List (String × ℤ);
  get_current_replicas = λ kind id m. ok (current_of kind id m);
  scale = keda_scale;
}

-- The executor that logs notes the replicas in a dry run as well.
unfoldable pub logging_scale :
    TargetType → Option String → ℤ → Bool → List (String × ℤ) → List (String × ℤ) × Option GoError
logging_scale kind id n dry_run m = (put (target_key kind id) n m, none)

abbrev pub logging : Executor
logging = record {
  Target = List (String × ℤ);
  get_current_replicas = λ kind id m. ok (current_of kind id m);
  scale = logging_scale;
}

-- The targets of several executors.
abbrev pub Targets : List Executor → Type 0
Targets [] = Unit
Targets (e ∷ es) = e.Target × Targets es

abbrev pub no_executors : ℕ
no_executors = 26

unfoldable pub composite_current :
    (es : List Executor) → TargetType → Option String → Targets es → Fallible ℤ
composite_current [] kind id t = err (plain no_executors)
composite_current (e ∷ es) kind id t = e.get_current_replicas kind id t.0

-- All the executors are called, and the last error is returned: `last` is the one so far.
unfoldable pub scale_all :
    (es : List Executor)
    → TargetType
    → Option String
    → ℤ
    → Bool
    → Option GoError
    → Targets es
    → Targets es × Option GoError
scale_all [] kind id n dry_run last t = (tt, last)
scale_all (e ∷ es) kind id n dry_run last t =
    let (t', r) = e.scale kind id n dry_run t.0 in
    let last' : Option GoError = elim r [ none ↦ last | some x ↦ some x ] in
    let (ts, x) = scale_all es kind id n dry_run last' t.1 in ((t', ts), x)

abbrev pub composite : List Executor → Executor
composite es = record {
  Target = Targets es;
  get_current_replicas = composite_current es;
  scale = λ kind id n dry_run t. scale_all es kind id n dry_run none t;
}

-- Every executor has made its own call.
abbrev pub Called :
    (es : List Executor) → TargetType → Option String → ℤ → Bool → Targets es → Targets es → Type 0
Called [] kind id n dry_run t t' = Unit
Called (e ∷ es) kind id n dry_run t t' =
    (t'.0 ≡ (e.scale kind id n dry_run t.0).0) × Called es kind id n dry_run t.1 t'.1

abbrev pub Succeed :
    (es : List Executor) → TargetType → Option String → ℤ → Bool → Targets es → Type 0
Succeed [] kind id n dry_run t = Unit
Succeed (e ∷ es) kind id n dry_run t =
    ((e.scale kind id n dry_run t.0).1 ≡ none) × Succeed es kind id n dry_run t.1

scale_all-Called :
    (es : List Executor) (kind : TargetType) (id : Option String) (n : ℤ) (dry_run : Bool)
    (last : Option GoError) (t : Targets es)
    → Called es kind id n dry_run t (scale_all es kind id n dry_run last t).0
unfolding scale_all
scale_all-Called [] kind id n dry_run last t = tt
scale_all-Called (e ∷ es) kind id n dry_run last t =
    (refl, scale_all-Called es kind id n dry_run _ t.1)

scale_all-error :
    (es : List Executor) (kind : TargetType) (id : Option String) (n : ℤ) (dry_run : Bool)
    (last : Option GoError) (t : Targets es)
    → ((scale_all es kind id n dry_run last t).1 ≡ none)
      ↔ ((last ≡ none) × Succeed es kind id n dry_run t)
unfolding scale_all
scale_all-error [] kind id n dry_run last t = (λ h. (h, tt), λ h. h.0)
scale_all-error (e ∷ es) kind id n dry_run last t =
    elim (Option-cases (e.scale kind id n dry_run t.0).1) [
      | inl r ↦
          let (to, from) = scale_all-error es kind id n dry_run last t.1 in
          (λ h. ground (arith, r, to), λ h. ground (arith, r, from))
      | inr (x, r) ↦
          let (to, from) = scale_all-error es kind id n dry_run (some x) t.1 in
          (λ h. ground (arith, r, to), λ h. ground (arith, r, from))
    ]

-- The composite calls each of its executors with the same target and number, whatever the others
-- return, and returns no error exactly if none of them does.
pub composite-Called :
    (es : List Executor) (kind : TargetType) (id : Option String) (n : ℤ) (dry_run : Bool)
    (t : Targets es)
    → let (t', r) = (composite es).scale kind id n dry_run t in
      Called es kind id n dry_run t t' × ((r ≡ none) ↔ Succeed es kind id n dry_run t)
composite-Called es kind id n dry_run t =
    let (to, from) = scale_all-error es kind id n dry_run none t in
    (scale_all-Called es kind id n dry_run none t, (λ h. (to h).1, λ h. from (refl, h)))

-- A scaling by the KEDA executor is read back, and the targets with another key keep their replicas; in
-- a dry run all keep them.
pub keda_scale-current :
    (kind kind' : TargetType) (id id' : Option String) (n : ℤ) (dry_run : Bool)
    (m : List (String × ℤ))
    → let m' = (keda_scale kind id n dry_run m).0 in
      current_of kind' id' m' ≡ (
        if dry_run
        then current_of kind' id' m
        else if str_eq (target_key kind id) (target_key kind' id')
        then n
        else current_of kind' id' m)
unfolding keda_scale current_of
keda_scale-current kind kind' id id' n dry_run m =
    ground (arith, lookup-put (target_key kind id) (target_key kind' id') n m)
