-- ===== src/Pipeline/Run/Tests/Restart.antt =====
-- A pipeline that is started again, with its checkpoints in PostgreSQL.
use philotes.Common.{◌≡◌, refl, none, some, List, [], ◌∷◌}
use philotes.Common.Errors.{plain}
use philotes.Cdc.{Checkpoint}
use philotes.Cdc.Checkpoints.{save, delete, CheckpointTable, postgres}
use philotes.Cdc.Checkpoints.Saved.{CheckpointCall, saves, deletes, checkpoint_calls}
use philotes.Pipeline.Run.{new, Pipeline}
use philotes.Pipeline.Run.Processing.{save_checkpoint, restore_checkpoint}
use philotes.Pipeline.Run.Resumes.{restore-save}
use philotes.Pipeline.Run.Tests.{keeper, config}

abbrev table : CheckpointTable
table = record { rows = []; now = 40; faults = none ∷ some (plain 1) ∷ [] }

abbrev first : Pipeline keeper postgres
first = record (new keeper postgres config "shop" [] table) { last_lsn = "0/16B3748" }

abbrev other : Checkpoint
other = record {
  source_id = "stock";
  lsn = "0/1";
  transaction_id = 4;
  committed_at = 0;
  metadata = [];
}

abbrev between : List CheckpointCall
between = deletes "stock" ∷ saves other ∷ []

abbrev second : Pipeline keeper postgres
second =
    new keeper postgres config "shop" []
      (checkpoint_calls between (save_checkpoint 41 first).0.saved)

restore-save_example :
    ((restore_checkpoint second).0.last_lsn ≡ "0/16B3748") × ((restore_checkpoint second).1 ≡ none)
unfolding new checkpoint_calls save delete save_checkpoint
restore-save_example =
    restore-save 41 first second between refl refl (refl, (refl, tt)) refl refl refl
