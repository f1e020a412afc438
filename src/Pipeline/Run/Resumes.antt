-- ===== src/Pipeline/Run/Resumes.antt =====
-- A pipeline goes on where another one saved its position, with the checkpoints in PostgreSQL.
use Prim.Native.String.{String}
use text.Mathlib.Text.{◌==◌ as str_eq}
use text.Mathlib.TextEquality.{eq_iff}
use philotes.Common.{ℕ, ◌≡◌, refl, ap, ◌∙◌, false, Option, none, some, List, [], ◌∷◌}
use philotes.Common.Errors.{GoError, ok, first_fault, other_faults, unless}
use philotes.Buffer.{Manager}
use philotes.Cdc.{Checkpoint}
use philotes.Cdc.Checkpoints.{postgres, fault, save, load}
use philotes.Cdc.Checkpoints.Saved.{
  timed, held, CheckpointCall, saves, loads, deletes, effect, effects, checkpoint_calls, calls-held,
  load-held, held-put,
}
use philotes.Pipeline.Run.{Pipeline}
use philotes.Pipeline.Run.Processing.{
  checkpoint_at, note_save, save_checkpoint, note_load, restore_checkpoint,
}

-- Calls that neither save nor delete the checkpoint of a source.
abbrev pub Others : String → List CheckpointCall → Type 0
Others k [] = Unit
Others k (saves c ∷ cs) = (str_eq c.source_id k ≡ false) × Others k cs
Others k (loads s ∷ cs) = Others k cs
Others k (deletes s ∷ cs) = (str_eq s k ≡ false) × Others k cs

abbrev Spares : String → CheckpointCall → Type 0
Spares k c = (now : ℕ) (m : String → Option Checkpoint) → effect now c m k ≡ m k

unless-Spares :
    (k : String) (c : CheckpointCall) (now : ℕ) (x : Option GoError)
    (m : String → Option Checkpoint)
    → Spares k c
    → unless x m (effect now c m) k ≡ m k
unless-Spares k c now none m h = h now m
unless-Spares k c now (some x) m h = refl

effects-Others :
    (k : String) (now : ℕ) (cs : List CheckpointCall) (faults : List (Option GoError))
    (m : String → Option Checkpoint)
    → Others k cs
    → effects now cs faults m k ≡ m k
unfolding effects effect
effects-Others k now [] faults m h = refl
effects-Others k now (saves c ∷ cs) faults m h =
    effects-Others k now cs (other_faults faults) _ h.1
    ∙ unless-Spares k (saves c) now (first_fault faults) m (λ now m. rw (h.0, effect) refl)
effects-Others k now (loads s ∷ cs) faults m h =
    effects-Others k now cs (other_faults faults) _ h
    ∙ unless-Spares k (loads s) now (first_fault faults) m (λ now m. refl)
effects-Others k now (deletes s ∷ cs) faults m h =
    effects-Others k now cs (other_faults faults) _ h.1
    ∙ unless-Spares k (deletes s) now (first_fault faults) m (λ now m. rw (h.0, effect) refl)

module _ {buffer : Manager} where
  saved-held :
      (now : ℕ) (p : Pipeline buffer postgres)
      → str_eq p.last_lsn "" ≡ false
      → fault p.saved ≡ none
      → held p.source_name (save_checkpoint now p).0.saved
        ≡ some (timed p.saved.now (checkpoint_at now p))
  unfolding save_checkpoint note_save checkpoint_at save
  saved-held now p e f =
      rw (e, f, save_checkpoint, save)
        (held-put (checkpoint_at now p) p.saved.now p.source_name p.saved
          ∙ rw ((eq_iff p.source_name p.source_name).1 refl) refl)

  loaded :
      (r : Pipeline buffer postgres) (c : Checkpoint)
      → (load r.source_name r.saved).1 ≡ ok (some c)
      → ((restore_checkpoint r).0.last_lsn ≡ c.lsn) × ((restore_checkpoint r).1 ≡ none)
  unfolding restore_checkpoint note_load
  loaded r c h = rw (h, restore_checkpoint, note_load) (refl, refl)

  -- A pipeline whose position is not empty saves it. If the save does not fail, and then any calls of the
  -- checkpoints of other sources come between, failing ones among them, a pipeline that reads the same
  -- source restores just that position at its start, if its load does not fail.
  pub restore-save :
      (now : ℕ) (p r : Pipeline buffer postgres) (cs : List CheckpointCall)
      → str_eq p.last_lsn "" ≡ false
      → fault p.saved ≡ none
      → Others p.source_name cs
      → r.source_name ≡ p.source_name
      → r.saved ≡ checkpoint_calls cs (save_checkpoint now p).0.saved
      → fault r.saved ≡ none
      → ((restore_checkpoint r).0.last_lsn ≡ p.last_lsn) × ((restore_checkpoint r).1 ≡ none)
  unfolding checkpoint_at
  restore-save now p r cs e f others same from f2 =
      let db = (save_checkpoint now p).0.saved in
      let c = timed p.saved.now (checkpoint_at now p) in
      let there : held p.source_name (checkpoint_calls cs db) ≡ some c =
        calls-held cs db p.source_name
        ∙ effects-Others p.source_name db.now cs db.faults (λ k. held k db) others
        ∙ saved-held now p e f in
      let now_there : held r.source_name r.saved ≡ some c = rw (same, from) there in
      loaded r c (load-held r.source_name r.saved ∙ rw (f2) (ap ok now_there))
