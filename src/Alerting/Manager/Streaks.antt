-- ===== src/Alerting/Manager/Streaks.antt =====
-- Pending alerts as streaks of observations.
use Prim.Native.String.{String}
use text.Mathlib.Text.{◌==◌ as str_eq}
use text.Mathlib.TextEquality.{eq_iff}
use philotes.Common.{
  ℕ, ◌≡◌, ◌≢◌, sym, ◌⊎◌, inl, inr, true, false, some, List, [], ◌∷◌, arith, Bool-cases,
  Option-cases,
}
use philotes.Common.Int.{sub_ℕ, ltb_ℤ, ◌≤ℤ◌}
use philotes.Common.Floats.{Floats}
use philotes.Common.Maps.{lookup, lookup-put, lookup-remove, remove-clears}
use philotes.Alerting.{AlertRule, EvaluationResult}
use philotes.Alerting.Manager.{
  Services, Manager, nanos, refire, create_alert, fire_alert, handle_firing, handle_not_firing,
  process_evaluation,
}

-- A call of `processEvaluation`.
pub record Observation (f : Floats) : Type 0 where
  pub now : ℕ
  pub rule : AlertRule f
  pub result : EvaluationResult f
  pub fp : String

-- Of the observations, the latest first: those of the fingerprint fire, back to one at time t.
abbrev pub Streak : {f : Floats} → String → ℕ → List (Observation f) → Type 0
Streak fp t [] = ⊥
Streak fp t (o ∷ os) =
    ((o.fp ≡ fp) × (o.result.should_fire ≡ true) × ((o.now ≡ t) ⊎ Streak fp t os))
    ⊎ ((o.fp ≢ fp) × Streak fp t os)

module _ {f : Floats} {sv : Services f} where
  -- What firing an alert leaves pending was pending.
  fire-pending :
      (now : ℕ) (rule : AlertRule f) (r : EvaluationResult f) (fp key : String) (t : ℕ)
      (m : Manager f sv)
      → lookup key (fire_alert now rule r fp m).0.pending ≡ some t
      → lookup key m.pending ≡ some t
  unfolding fire_alert refire create_alert
  fire-pending now rule r fp key t m h = ground (arith, h, lookup-remove fp key t m.pending)

  handle_firing-pending :
      (now : ℕ) (rule : AlertRule f) (r : EvaluationResult f) (fp key : String) (t : ℕ)
      (m : Manager f sv)
      → lookup key (handle_firing now rule r fp m).0.pending ≡ some t
      → (lookup key m.pending ≡ some t) ⊎ ((str_eq fp key ≡ true) × (now ≡ t))
  unfolding handle_firing
  handle_firing-pending now rule r fp key t m h = elim (Option-cases (lookup fp m.pending)) [
    | inl e ↦ ground (arith, h, e, lookup-put fp key now m.pending)
    | inr (t0, e) ↦ ground (arith, h, e, fire-pending now rule r fp key t m)
  ]

  -- What is pending behind an observation was pending and is not cleared by it, or begins with it.
  process-pending :
      (o : Observation f) (key : String) (t : ℕ) (m : Manager f sv)
      → lookup key (process_evaluation o.now o.rule o.result o.fp m).0.pending ≡ some t
      → ((str_eq o.fp key ≡ true)
          × (o.result.should_fire ≡ true)
          × ((o.now ≡ t) ⊎ (lookup key m.pending ≡ some t)))
        ⊎ ((str_eq o.fp key ≡ false) × (lookup key m.pending ≡ some t))
  unfolding process_evaluation handle_not_firing
  process-pending o key t m h = elim (Bool-cases o.result.should_fire) [
    | inl fires ↦ ground (arith, h, fires, handle_firing-pending o.now o.rule o.result o.fp key t m)
    | inr quiet ↦ elim (Bool-cases (str_eq o.fp key)) [
      | inl same ↦ absurd (
          ground (
            arith,
            h,
            quiet,
            remove-clears o.fp key m.pending ((eq_iff key o.fp).1 (sym ((eq_iff o.fp key).0 same))),
          ))
      | inr other ↦ inr (other, ground (arith, h, quiet, lookup-remove o.fp key t m.pending))
    ]
  ]

module _ {f : Floats} (sv : Services f) where
  -- The manager after the observations, the latest first, from one with nothing pending.
  unfoldable pub after : sv.World → List (Observation f) → Manager f sv
  unfolding process_evaluation
  after world [] = record { world = world; pending = [] }
  after world (o ∷ os) = (process_evaluation o.now o.rule o.result o.fp (after world os)).0

  -- An alert that is pending since t has a streak of observations that began at t.
  pending-Streak :
      (world : sv.World) (os : List (Observation f)) (key : String) (t : ℕ)
      → lookup key (after world os).pending ≡ some t
      → Streak key t os
  unfolding after lookup
  pending-Streak world [] key t h = ground (arith, h)
  pending-Streak world (o ∷ os) key t h = elim (process-pending o key t (after world os) h) [
    | inl (same, fires, inl begins) ↦ inl ((eq_iff o.fp key).0 same, fires, inl begins)
    | inl (same, fires, inr was) ↦
        inl ((eq_iff o.fp key).0 same, fires, inr (pending-Streak world os key t was))
    | inr (other, was) ↦
        inr ((λ e. ground (arith, other, (eq_iff o.fp key).1 e)), pending-Streak world os key t was)
  ]

  -- For a manager that began with nothing pending: an observation that changes anything outside (the
  -- repository, or what was sent) is one that fires, and behind a streak: its fingerprint was seen
  -- firing at a time t at least the duration of the rule before, and every observation of it since
  -- then fired as well.
  pub outside-Streak :
      (world : sv.World) (os : List (Observation f)) (o : Observation f)
      → (after world (o ∷ os)).world ≢ (after world os).world
      → (o.result.should_fire ≡ true)
        × ((t : ℕ) × Streak o.fp t os × (nanos o.rule.duration_seconds ≤ℤ sub_ℕ o.now t))
  unfolding after process_evaluation handle_firing handle_not_firing
  outside-Streak world os o moved = elim (Bool-cases o.result.should_fire) [
    | inr quiet ↦ absurd (moved (ground (arith, quiet)))
    | inl fires ↦ elim (Option-cases (lookup o.fp (after world os).pending)) [
      | inl e ↦ absurd (moved (ground (arith, fires, e)))
      | inr (t, e) ↦ elim (Bool-cases (ltb_ℤ (sub_ℕ o.now t) (nanos o.rule.duration_seconds))) [
        | inl early ↦ absurd (moved (ground (arith, fires, e, early)))
        | inr late ↦ (fires, (t, pending-Streak world os o.fp t e, ground (arith, late)))
      ]
    ]
  ]
