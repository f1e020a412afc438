-- ===== src/Cdc/Checkpoints/Positions.antt =====
-- internal/cdc/checkpoint/postgres.go: the position that is loaded, behind any calls and at any pace of the
-- clock.
use Prim.Native.String.{String}
use text.Mathlib.Text.{◌==◌ as str_eq}
use mathlib.Core.Path.{fun_ext}
use philotes.Common.{
  ℕ, ◌+◌, ◌≡◌, refl, ap, ◌∙◌, Option, none, some, List, [], ◌∷◌, if◌then◌else◌, Bool-cases, inl,
  inr,
}
use philotes.Common.Errors.{GoError, wrapped, Fallible, ok, err, first_fault, other_faults, unless}
use philotes.Cdc.{Checkpoint}
use philotes.Cdc.Checkpoints.{CheckpointTable, fault, load, load_failed}
use philotes.Cdc.Checkpoints.Saved.{
  held, CheckpointCall, saves, loads, deletes, checkpoint_call, effect, call-faults, call-held,
  answer, load-held,
}

-- The LSN and the transaction of a checkpoint.
abbrev pub place : Option Checkpoint → Option (String × ℕ)
place none = none
place (some c) = some (c.lsn, c.transaction_id)

abbrev pub place_loaded : Fallible (Option Checkpoint) → Fallible (Option (String × ℕ))
place_loaded (ok c) = ok (place c)
place_loaded (err x) = err x

-- A call, or time that passes.
pub data TimedCall : Type 0 where
  calls : CheckpointCall → TimedCall
  passes : ℕ → TimedCall

unfoldable pub timed_calls : List TimedCall → CheckpointTable → CheckpointTable
unfolding checkpoint_call
timed_calls [] db = db
timed_calls (calls c ∷ cs) db = timed_calls cs (checkpoint_call c db)
timed_calls (passes t ∷ cs) db = timed_calls cs (record db { now = db.now + t })

-- What a call makes of a map from sources to positions, if it does not fail.
unfoldable pub moved :
    CheckpointCall → (String → Option (String × ℕ)) → String → Option (String × ℕ)
moved (saves c) m k = if str_eq c.source_id k then some (c.lsn, c.transaction_id) else m k
moved (loads s) m k = m k
moved (deletes s) m k = if str_eq s k then none else m k

-- The map behind calls of which some fail.
unfoldable pub places :
    List TimedCall
    → List (Option GoError)
    → (String → Option (String × ℕ))
    → String
    → Option (String × ℕ)
unfolding moved
places [] faults m = m
places (calls c ∷ cs) faults m =
    places cs (other_faults faults) (unless (first_fault faults) m (moved c m))
places (passes t ∷ cs) faults m = places cs faults m

effect-place :
    (now : ℕ) (c : CheckpointCall) (m : String → Option Checkpoint) (k : String)
    → place (effect now c m k) ≡ moved c (λ k. place (m k)) k
unfolding effect moved
effect-place now (saves c) m k = elim (Bool-cases (str_eq c.source_id k)) [
  | inl e ↦ rw e refl
  | inr e ↦ rw e refl
]
effect-place now (loads s) m k = refl
effect-place now (deletes s) m k = elim (Bool-cases (str_eq s k)) [
  | inl e ↦ rw e refl
  | inr e ↦ rw e refl
]

unless-place :
    (now : ℕ) (x : Option GoError) (c : CheckpointCall) (m : String → Option Checkpoint)
    (k : String)
    → place (unless x m (effect now c m) k)
      ≡ unless x (λ k. place (m k)) (moved c (λ k. place (m k))) k
unless-place now none c m k = effect-place now c m k
unless-place now (some x) c m k = refl

calls-place :
    (cs : List TimedCall) (db : CheckpointTable) (k : String)
    → place (held k (timed_calls cs db)) ≡ places cs db.faults (λ k. place (held k db)) k
unfolding timed_calls places
calls-place [] db k = refl
calls-place (calls c ∷ cs) db k =
    calls-place cs (checkpoint_call c db) k
    ∙ ap (λ faults. places cs faults (λ k. place (held k (checkpoint_call c db))) k)
        (call-faults c db).0
    ∙ ap (λ m. places cs (other_faults db.faults) m k)
        (fun_ext (λ j.
          ap place (call-held c db j)
          ∙ unless-place db.now (first_fault db.faults) c (λ k. held k db) j))
calls-place (passes t ∷ cs) db k = calls-place cs (record db { now = db.now + t }) k

answer-place :
    (x : Option GoError) (c : Option Checkpoint)
    → place_loaded (answer x c)
      ≡ elim x [ none ↦ ok (place c) | some e ↦ err (wrapped load_failed e) ]
answer-place none c = refl
answer-place (some e) c = refl

-- Behind any saves, loads and deletions of checkpoints of any sources, of which any may fail and between
-- which any time may pass, a load that does not fail returns the LSN and the transaction that a map from
-- sources to positions holds on which the calls that did not fail acted: those of the checkpoint of the
-- source that was saved last, and none if there is none or it was deleted since. One that fails returns
-- its error.
pub load-position :
    (cs : List TimedCall) (db : CheckpointTable) (k : String)
    → place_loaded (load k (timed_calls cs db)).1 ≡ elim (fault (timed_calls cs db)) [
      | none ↦ ok (places cs db.faults (λ k. place (held k db)) k)
      | some x ↦ err (wrapped load_failed x)
    ]
load-position cs db k =
    let behind = timed_calls cs db in
    ap place_loaded (load-held k behind)
    ∙ answer-place (fault behind) (held k behind)
    ∙ ap (λ p. elim (fault behind) [ none ↦ ok p | some x ↦ err (wrapped load_failed x) ])
        (calls-place cs db k)
