-- ===== src/Scaling/Evaluator/Pending.antt =====
-- The pending conditions of a state, from one rule to the next.
use Prim.Native.String.{String}
use philotes.Common.Maps.{lookup, lookup-remove}
use philotes.Common.{ℕ, ◌≡◌, refl, ◌∙◌, ◌⊎◌, inl, inr, true, some, arith, Option-cases}
use philotes.Common.Int.{ℤ, pos, sub_ℕ, ◌≤ℤ◌}
use philotes.Scaling.{State}
use philotes.Scaling.Evaluator.{
  check_duration_condition, update_pending_condition, clear_pending_condition,
}

-- What the evaluation of rules keeps of a state: all but the pending conditions, of which the entries
-- are old ones or begin now.
pub record Follows (now : ℕ) (s s' : State) : Type 0 where
  pub id_kept : s'.policy_id ≡ s.policy_id
  pub replicas_kept : s'.current_replicas ≡ s.current_replicas
  pub time_kept : s'.last_scale_time ≡ s.last_scale_time
  pub entries :
      (key : String) (t : ℕ)
      → lookup key s'.pending ≡ some t
      → (lookup key s.pending ≡ some t) ⊎ (t ≡ now)

pub same-Follows : (now : ℕ) (s : State) → Follows now s s
same-Follows now s = record {
  id_kept = refl;
  replicas_kept = refl;
  time_kept = refl;
  entries = λ k t h. inl h;
}

pub update-Follows :
    (now : ℕ) (s : State) (key : String) → Follows now s (update_pending_condition now s key)
unfolding update_pending_condition
update-Follows now s key = elim (Option-cases (lookup key s.pending)) [
  | inr (t, e) ↦ rw (e, update_pending_condition) (same-Follows now s)
  | inl e ↦
      rw (e, update_pending_condition)
        (record {
          id_kept = refl;
          replicas_kept = refl;
          time_kept = refl;
          entries = λ k t h. unfold lookup in ground arith;
        })
]

pub clear-Follows :
    (now : ℕ) (s : State) (key : String) → Follows now s (clear_pending_condition s key)
unfolding clear_pending_condition
clear-Follows now s key = record {
  id_kept = refl;
  replicas_kept = refl;
  time_kept = refl;
  entries = λ k t h. inl (lookup-remove key k t s.pending h);
}

pub trans-Follows : (now : ℕ) (s t u : State) → Follows now s t → Follows now t u → Follows now s u
trans-Follows now s t u h k = record {
  id_kept = k.id_kept ∙ h.id_kept;
  replicas_kept = k.replicas_kept ∙ h.replicas_kept;
  time_kept = k.time_kept ∙ h.time_kept;
  entries = λ key time e. elim (k.entries key time e) [
    | inl old ↦ h.entries key time old
    | inr new ↦ inr new
  ];
}

-- A condition that is met has lasted, also seen from a state that the present one follows.
pub met-lasts :
    (now : ℕ) (s s' : State) (key : String) (required : ℤ)
    → Follows now s s'
    → (check_duration_condition now s' key required).0 ≡ true
    → (required ≤ℤ pos 0) ⊎ ((t : ℕ) × (lookup key s.pending ≡ some t) × (required ≤ℤ sub_ℕ now t))
unfolding check_duration_condition
met-lasts now s s' key required follows met = elim (Option-cases (lookup key s'.pending)) [
  | inl e ↦ ground (arith, e)
  | inr (t, e) ↦ elim (follows.entries key t e) [
    | inl old ↦ ground (arith, e, old)
    | inr new ↦ ground (arith, e, new)
  ]
]
