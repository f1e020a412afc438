-- ===== src/Scaling/Manager/Cooldown.antt =====
-- The cooldown, from one round of the manager to the next.
use Prim.Native.String.{String}
use philotes.Common.{ℕ, ◌≡◌, some}
use philotes.Common.Errors.{ok}
use philotes.Common.Floats.{Floats}
use philotes.Scaling.{State}
use philotes.Scaling.Manager.{Repository}

-- The store holds a state for the policy with its last scaling at `now`.
abbrev pub Marked : {f : Floats} (repo : Repository f) → String → ℕ → repo.Store → Type 0
Marked repo id now store =
    (s : State) × (repo.get_state id store ≡ ok s) × (s.last_scale_time ≡ some now)

-- The store is as the update with a state left it whose last scaling is at `now`.
abbrev pub Handed : {f : Floats} (repo : Repository f) → ℕ → repo.Store → Type 0
Handed repo now store =
    (s : State) × (st : repo.Store) × (store ≡ (repo.update_state s st).0)
    × (s.last_scale_time ≡ some now)
