-- ===== src/Cdc/Checkpoints/Saved.antt =====
-- What is saved of a checkpoint is loaded again.
use Prim.Native.String.{String}
use text.Mathlib.Text.{◌==◌ as str_eq}
use text.Mathlib.TextEquality.{eq_iff}
use mathlib.Core.Path.{fun_ext}
use philotes.Common.{
  ℕ, ◌≡◌, refl, sym, ap, ap₂, ◌∙◌, inl, inr, Option, none, some, List, [], ◌∷◌, ◌==◌, if◌then◌else◌,
  Bool-cases, Option-cases,
}
use philotes.Common.Errors.{GoError, wrapped, Fallible, ok, err, first_fault, other_faults, unless}
use philotes.Common.Maps.{lookup, put, remove, lookup-put, lookup-without}
use philotes.Cdc.{Columns, Checkpoint}
use philotes.Cdc.Checkpoints.{
  CheckpointTable, fault, marshal_metadata, row_of, scan, save, load, delete, load_failed,
}

-- A checkpoint with its time filled in.
abbrev pub timed : ℕ → Checkpoint → Checkpoint
timed now c = record c { committed_at = if c.committed_at == 0 then now else c.committed_at }

metadata-kept : (m : Columns) → (elim (marshal_metadata m) [ none ↦ [] | some n ↦ n ]) ≡ m
metadata-kept [] = refl
metadata-kept (c ∷ cs) = refl

scan-row_of : (now : ℕ) (c : Checkpoint) → scan c.source_id (row_of now c) ≡ timed now c
scan-row_of now c = rw (metadata-kept c.metadata) refl

-- The checkpoint of a source that the table holds.
abbrev pub held : String → CheckpointTable → Option Checkpoint
held source db = elim (lookup source db.rows) [ none ↦ none | some r ↦ some (scan source r) ]

-- A call of the manager.
pub data CheckpointCall : Type 0 where
  saves : Checkpoint → CheckpointCall
  loads deletes : String → CheckpointCall

unfoldable pub checkpoint_call : CheckpointCall → CheckpointTable → CheckpointTable
checkpoint_call (saves c) db = (save c db).0
checkpoint_call (loads s) db = (load s db).0
checkpoint_call (deletes s) db = (delete s db).0

-- Its effect on a map from sources to checkpoints, if it does not fail.
unfoldable pub effect :
    ℕ → CheckpointCall → (String → Option Checkpoint) → String → Option Checkpoint
effect now (saves c) m k = if str_eq c.source_id k then some (timed now c) else m k
effect now (loads s) m k = m k
effect now (deletes s) m k = if str_eq s k then none else m k

pub held-put :
    (c : Checkpoint) (now : ℕ) (k : String) (db : CheckpointTable)
    → held k (record db { rows = put c.source_id (row_of now c) db.rows })
      ≡ (if str_eq c.source_id k then some (timed now c) else held k db)
held-put c now k db = elim (Bool-cases (str_eq c.source_id k)) [
  | inl same ↦
      rw (lookup-put c.source_id k (row_of now c) db.rows, same, held)
        (rw (sym ((eq_iff c.source_id k).0 same)) (ap some (scan-row_of now c)))
  | inr other ↦ rw (lookup-put c.source_id k (row_of now c) db.rows, other, held) refl
]

held-remove :
    (s k : String) (db : CheckpointTable)
    → held k (record db { rows = remove s db.rows }) ≡ (if str_eq s k then none else held k db)
held-remove s k db = elim (Bool-cases (str_eq s k)) [
  | inl same ↦ rw (lookup-without s k db.rows, same, held) refl
  | inr other ↦ rw (lookup-without s k db.rows, other, held) refl
]

-- The map behind calls of which some fail.
unfoldable pub effects :
    ℕ
    → List CheckpointCall
    → List (Option GoError)
    → (String → Option Checkpoint)
    → String
    → Option Checkpoint
unfolding effect
effects now [] faults m = m
effects now (c ∷ cs) faults m =
    effects now cs (other_faults faults) (unless (first_fault faults) m (effect now c m))

unfoldable pub checkpoint_calls : List CheckpointCall → CheckpointTable → CheckpointTable
unfolding checkpoint_call
checkpoint_calls [] db = db
checkpoint_calls (c ∷ cs) db = checkpoint_calls cs (checkpoint_call c db)

pub call-faults :
    (c : CheckpointCall) (db : CheckpointTable)
    → ((checkpoint_call c db).faults ≡ other_faults db.faults)
      × ((checkpoint_call c db).now ≡ db.now)
unfolding checkpoint_call save load delete
call-faults (saves c) db = elim (Option-cases (fault db)) [
  | inl x ↦ rw (x, checkpoint_call, save) (refl, refl)
  | inr (e, x) ↦ rw (x, checkpoint_call, save) (refl, refl)
]
call-faults (loads s) db = elim (Option-cases (fault db)) [
  | inl x ↦ rw (x, checkpoint_call, load) (refl, refl)
  | inr (e, x) ↦ rw (x, checkpoint_call, load) (refl, refl)
]
call-faults (deletes s) db = elim (Option-cases (fault db)) [
  | inl x ↦ rw (x, checkpoint_call, delete) (refl, refl)
  | inr (e, x) ↦ rw (x, checkpoint_call, delete) (refl, refl)
]

pub call-held :
    (c : CheckpointCall) (db : CheckpointTable) (k : String)
    → held k (checkpoint_call c db)
      ≡ unless (first_fault db.faults) (λ k. held k db) (effect db.now c (λ k. held k db)) k
unfolding checkpoint_call save load delete effect
call-held (saves c) db k = elim (Option-cases (fault db)) [
  | inl x ↦ rw (x, checkpoint_call, save) (held-put c db.now k db)
  | inr (e, x) ↦ rw (x, checkpoint_call, save) refl
]
call-held (loads s) db k = elim (Option-cases (fault db)) [
  | inl x ↦ rw (x, checkpoint_call, load) refl
  | inr (e, x) ↦ rw (x, checkpoint_call, load) refl
]
call-held (deletes s) db k = elim (Option-cases (fault db)) [
  | inl x ↦ rw (x, checkpoint_call, delete) (held-remove s k db)
  | inr (e, x) ↦ rw (x, checkpoint_call, delete) refl
]

pub calls-held :
    (cs : List CheckpointCall) (db : CheckpointTable) (k : String)
    → held k (checkpoint_calls cs db) ≡ effects db.now cs db.faults (λ k. held k db) k
unfolding checkpoint_calls effects
calls-held [] db k = refl
calls-held (c ∷ cs) db k =
    let next = checkpoint_call c db in
    let f = call-faults c db in
    calls-held cs next k
    ∙ ap₂ (λ now faults. effects now cs faults (λ k. held k next) k) f.1 f.0
    ∙ ap (λ m. effects db.now cs (other_faults db.faults) m k) (fun_ext (λ k. call-held c db k))

-- What a load returns, from its fault and what is held.
abbrev pub answer : Option GoError → Option Checkpoint → Fallible (Option Checkpoint)
answer none m = ok m
answer (some x) m = err (wrapped load_failed x)

pub load-held : (k : String) (db : CheckpointTable) → (load k db).1 ≡ answer (fault db) (held k db)
unfolding load
load-held k db = elim (Option-cases (fault db)) [
  | inl x ↦ rw (x, load) refl
  | inr (e, x) ↦ rw (x, load) refl
]
