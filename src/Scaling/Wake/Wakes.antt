-- ===== src/Scaling/Wake/Wakes.antt =====
-- How a wake ends, and that one that succeeds is not remembered.
use Prim.Native.String.{String}
use text.Mathlib.TextEquality.{eq_iff}
use philotes.Common.{
  ℕ, ◌≡◌, refl, sym, ap, subst, ◌∙◌, inl, inr, true, false, Option, none, some, Bool-cases,
  Option-cases,
}
use philotes.Common.Errors.{GoError, plain, wrapped, ok, err, Fallible-cases}
use philotes.Common.Int.{ℤ, pos}
use philotes.Common.Floats.{Floats}
use philotes.Common.Maps.{put, lookup-put, lookup-without}
use philotes.Scaling.{Policy, State}
use philotes.Scaling.Idle.{WakeReason, IdleRepository, mark_woken, put_state}
use philotes.Scaling.Idle.ScaledToZero.{is_zero}
use philotes.Scaling.Wake.{
  ColdStartConfig, WakeHistory, result_of, completed, failed, WakeServices, Trigger, Answer,
  policy_failed, policy_not_found, state_failed, is_running, replicas_of, wake_target, wake_history,
  new_operation, failed_trigger, woken_trigger, scaled, wake_policy, wake, is_waking,
}

-- What the world says of a policy is not changed by a scaling or by a record of the history.
pub record KeepsPolicies {f : Floats} (sv : WakeServices f) (id : String) : Type 0 where
  pub policy_scaled :
      (p : Policy f) (n : ℤ) (w : sv.World)
      → sv.get_policy id (sv.scale p n w).0 ≡ sv.get_policy id w
  pub policy_noted :
      (h : WakeHistory) (w : sv.World)
      → sv.get_policy id (sv.record_history h w).0 ≡ sv.get_policy id w
  pub state_scaled :
      (p : Policy f) (n : ℤ) (w : sv.World)
      → sv.get_policy_state id (sv.scale p n w).0 ≡ sv.get_policy_state id w
  pub state_noted :
      (h : WakeHistory) (w : sv.World)
      → sv.get_policy_state id (sv.record_history h w).0 ≡ sv.get_policy_state id w

module _ {f : Floats} {sv : WakeServices f} {repo : IdleRepository} where
  -- The ways in which a wake ends: it finds no policy, or no state; the policy runs already; the scaling
  -- fails; or it is made.
  pub data Woke (cfg : ColdStartConfig) (now : ℕ) (id : String) (reason : WakeReason)
      (t : Trigger f sv repo) : Trigger f sv repo × Answer → Type 0 where
    policy_error :
        (x : GoError)
        → sv.get_policy id t.world ≡ err x
        → Woke cfg now id reason t (t, (none, some (wrapped policy_failed x)))
    unknown :
        sv.get_policy id t.world ≡ ok none
        → Woke cfg now id reason t (t, (none, some (plain policy_not_found)))
    state_error :
        (x : GoError)
        → sv.get_policy_state id t.world ≡ err x
        → Woke cfg now id reason t (t, (none, some (wrapped state_failed x)))
    running :
        (state : Option State)
        → sv.get_policy_state id t.world ≡ ok state
        → is_running state ≡ true
        → Woke cfg now id reason t (
          t,
          (
            some
                (result_of id (replicas_of state) (replicas_of state) reason completed 0 true none),
            none,
          ),
        )
    refused :
        (p : Policy f) (world : sv.World) (x : GoError) (u : Trigger f sv repo)
        → sv.get_policy id t.world ≡ ok (some p)
        → sv.scale p (wake_target cfg p) t.world ≡ (world, some x)
        → u.world ≡ world
        → u.detector ≡ t.detector
        → is_waking id u ≡ true
        → Woke cfg now id reason t (
          u,
          (some (result_of id (pos 0) (wake_target cfg p) reason failed 0 false (some x)), some x),
        )
    woke :
        (p : Policy f) (world : sv.World) (u : Trigger f sv repo)
        → sv.get_policy id t.world ≡ ok (some p)
        → sv.scale p (wake_target cfg p) t.world ≡ (world, none)
        → u.world ≡ (sv.record_history (wake_history now p id (wake_target cfg p) reason) world).0
        → is_waking id u ≡ false
        → is_zero u.detector id ≡ false
        → Woke cfg now id reason t (
          u,
          (
            some (
                result_of id
                  (pos 0)
                  (wake_target cfg p)
                  reason
                  completed
                  cfg.timeout_seconds
                  false
                  none),
            none,
          ),
        )

  failed_trigger-waking :
      (now : ℕ) (id : String) (reason : WakeReason) (target : ℤ) (world : sv.World) (x : GoError)
      (t : Trigger f sv repo)
      → is_waking id (failed_trigger now id reason target world x t) ≡ true
  failed_trigger-waking now id reason target world x t =
      rw (lookup-put id id _ t.pending_wakes, (eq_iff id id).1 refl) refl

  woken_trigger-waking :
      (now : ℕ) (p : Policy f) (id : String) (reason : WakeReason) (target : ℤ) (world : sv.World)
      (t : Trigger f sv repo)
      → is_waking id (woken_trigger now p id reason target world t) ≡ false
  woken_trigger-waking now p id reason target world t =
      rw
        (
          lookup-without id id (put id (new_operation now id reason target) t.pending_wakes),
          (eq_iff id id).1 refl,
        )
        refl

  woken_trigger-zero :
      (now : ℕ) (p : Policy f) (id : String) (reason : WakeReason) (target : ℤ) (world : sv.World)
      (t : Trigger f sv repo)
      → is_zero (woken_trigger now p id reason target world t).detector id ≡ false
  unfolding mark_woken put_state
  woken_trigger-zero now p id reason target world t =
      rw (lookup-put id id _ t.detector.states, (eq_iff id id).1 refl) refl

  scaled-Woke :
      (cfg : ColdStartConfig) (now : ℕ) (p : Policy f) (id : String) (reason : WakeReason)
      (t : Trigger f sv repo) (r : sv.World × Option GoError)
      → sv.get_policy id t.world ≡ ok (some p)
      → sv.scale p (wake_target cfg p) t.world ≡ r
      → Woke cfg now id reason t (scaled cfg now p id reason (wake_target cfg p) t r)
  unfolding scaled
  scaled-Woke cfg now p id reason t (world, some x) e h =
      refused p world x _ e h refl refl
        (failed_trigger-waking now id reason (wake_target cfg p) world x t)
  scaled-Woke cfg now p id reason t (world, none) e h =
      woke p world _ e h refl (woken_trigger-waking now p id reason (wake_target cfg p) world t)
        (woken_trigger-zero now p id reason (wake_target cfg p) world t)

  wake_policy-running :
      (cfg : ColdStartConfig) (now : ℕ) (id : String) (reason : WakeReason) (p : Policy f)
      (state : Option State) (t : Trigger f sv repo)
      → is_running state ≡ true
      → wake_policy cfg now id reason p state t ≡ (
        t,
        (
          some (result_of id (replicas_of state) (replicas_of state) reason completed 0 true none),
          none,
        ),
      )
  unfolding wake_policy
  wake_policy-running cfg now id reason p state t r = rw (r, wake_policy) refl

  wake_policy-scaled :
      (cfg : ColdStartConfig) (now : ℕ) (id : String) (reason : WakeReason) (p : Policy f)
      (state : Option State) (t : Trigger f sv repo)
      → is_running state ≡ false
      → wake_policy cfg now id reason p state t
        ≡ scaled cfg now p id reason (wake_target cfg p) t (sv.scale p (wake_target cfg p) t.world)
  unfolding wake_policy
  wake_policy-scaled cfg now id reason p state t r = rw (r, wake_policy) refl

  -- `Wake` changes nothing if the policy or its state cannot be read, or if the policy runs already.
  -- Otherwise it scales the policy once, to its minimum if that is above 0 and else to the default. If
  -- that fails, the detector is left and the operation stays among the pending wakes; if it succeeds, a
  -- history is recorded, no wake of the policy is pending, and the detector does not take it to be
  -- scaled to zero.
  pub wake-Woke :
      (cfg : ColdStartConfig) (now : ℕ) (id : String) (reason : WakeReason) (t : Trigger f sv repo)
      → Woke cfg now id reason t (wake cfg now id reason t)
  unfolding wake
  wake-Woke cfg now id reason t = elim (Fallible-cases (sv.get_policy id t.world)) [
    | inr (x, h) ↦ rw (h, wake) (policy_error x h)
    | inl (o, h) ↦ elim (Option-cases o) [
      | inl n ↦ rw (h, n, wake) (unknown (h ∙ rw (n) refl))
      | inr (p, j) ↦ elim (Fallible-cases (sv.get_policy_state id t.world)) [
        | inr (x, k) ↦ rw (h, j, k, wake) (state_error x k)
        | inl (state, k) ↦ elim (Bool-cases (is_running state)) [
          | inl r ↦
              rw (h, j, k, wake)
                (rw (wake_policy-running cfg now id reason p state t r) (running state k r))
          | inr r ↦
              rw (h, j, k, wake)
                (rw (wake_policy-scaled cfg now id reason p state t r) (
                  scaled-Woke cfg now p id reason t (sv.scale p (wake_target cfg p) t.world)
                    (h ∙ rw (j) refl) refl))
        ]
      ]
    ]
  ]

  wake-scaled :
      (cfg : ColdStartConfig) (now : ℕ) (id : String) (reason : WakeReason) (p : Policy f)
      (state : Option State) (t : Trigger f sv repo)
      → sv.get_policy id t.world ≡ ok (some p)
      → sv.get_policy_state id t.world ≡ ok state
      → is_running state ≡ false
      → wake cfg now id reason t
        ≡ scaled cfg now p id reason (wake_target cfg p) t (sv.scale p (wake_target cfg p) t.world)
  unfolding wake
  wake-scaled cfg now id reason p state t h k r =
      rw (h, k, wake) (wake_policy-scaled cfg now id reason p state t r)

  -- A wake that succeeds is not remembered where `Wake` looks: if scaling and history leave what the world
  -- says of the policy, then a second `Wake` does not find the policy running, and scales it again to the
  -- same replicas, whatever it has been scaled to in between.
  pub wake_again-scales :
      (cfg : ColdStartConfig) (now later : ℕ) (id : String) (reason again : WakeReason)
      (p : Policy f) (state : Option State) (world : sv.World) (t : Trigger f sv repo)
      → KeepsPolicies sv id
      → sv.get_policy id t.world ≡ ok (some p)
      → sv.get_policy_state id t.world ≡ ok state
      → is_running state ≡ false
      → sv.scale p (wake_target cfg p) t.world ≡ (world, none)
      → wake cfg later id again (wake cfg now id reason t).0
        ≡ scaled cfg later p id again
            (wake_target cfg p)
            (wake cfg now id reason t).0
            (sv.scale p (wake_target cfg p) (wake cfg now id reason t).0.world)
  unfolding scaled
  wake_again-scales cfg now later id reason again p state world t keeps h k r e =
      let u = woken_trigger now p id reason (wake_target cfg p) world t in
      let was : (wake cfg now id reason t).0 ≡ u =
        ap (λ x. x.0)
          (wake-scaled cfg now id reason p state t h k r
            ∙ ap (λ x. scaled cfg now p id reason (wake_target cfg p) t x) e) in
      let behind : (sv.scale p (wake_target cfg p) t.world).0 ≡ world = ap (λ x. x.0) e in
      let note = wake_history now p id (wake_target cfg p) reason in
      let policy : sv.get_policy id u.world ≡ ok (some p) =
        keeps.policy_noted note world
        ∙ subst (λ w. sv.get_policy id w ≡ ok (some p)) behind
            (keeps.policy_scaled p (wake_target cfg p) t.world ∙ h) in
      let says : sv.get_policy_state id u.world ≡ ok state =
        keeps.state_noted note world
        ∙ subst (λ w. sv.get_policy_state id w ≡ ok state) behind
            (keeps.state_scaled p (wake_target cfg p) t.world ∙ k) in
      subst
        (λ v.
          wake cfg later id again v
          ≡ scaled cfg later p id again (wake_target cfg p) v
              (sv.scale p (wake_target cfg p) v.world))
        (sym was) (wake-scaled cfg later id again p state u policy says r)
