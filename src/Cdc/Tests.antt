-- ===== src/Cdc/Tests.antt =====
-- Runs of the checkpoints.
use philotes.Common.Maps.{put, lookup}
use philotes.Common.{◌≡◌, refl, none, some, List, [], ◌∷◌}
use philotes.Common.Errors.{plain, ok}
use philotes.Cdc.{Checkpoint}
use philotes.Cdc.Checkpoints.{delete, save, CheckpointTable, load}
use philotes.Cdc.Checkpoints.Saved.{CheckpointCall, saves, loads, deletes, checkpoint_calls}
use philotes.Cdc.Checkpoints.Positions.{
  TimedCall, calls, passes, timed_calls, place_loaded, places, load-position,
}

abbrev table : CheckpointTable
table = record { rows = []; now = 40; faults = none ∷ some (plain 1) ∷ [] }

abbrev checkpoint : Checkpoint
checkpoint = record {
  source_id = "shop";
  lsn = "0/1";
  transaction_id = 4;
  committed_at = 0;
  metadata = ("k", 7) ∷ [];
}

-- The deletion fails.
abbrev history : List CheckpointCall
history = saves checkpoint ∷ deletes "shop" ∷ loads "stock" ∷ []

load_again :
    (load "shop" (checkpoint_calls history table)).1
    ≡ ok (some (record checkpoint { committed_at = 40 }))
unfolding load checkpoint_calls delete save lookup put
load_again = refl

-- The save of the second one fails, long behind the first.
abbrev later : List TimedCall
later =
    calls (saves checkpoint)
    ∷ passes 100
    ∷ calls (saves (record checkpoint { lsn = "0/2" }))
    ∷ calls (loads "stock")
    ∷ []

load-position_example :
    place_loaded (load "shop" (timed_calls later table)).1 ≡ ok (some ("0/1", 4))
unfolding timed_calls load save places
load-position_example = load-position later table "shop"
