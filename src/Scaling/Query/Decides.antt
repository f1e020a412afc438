-- ===== src/Scaling/Query/Decides.antt =====
-- What an evaluation of a query policy decides.
use philotes.Common.{
  ℕ, zero, suc, ◌^◌, ◌<◌, ◌≡◌, refl, subst, inl, inr, true, false, not, ◌&&◌, Option, none, some,
  Bool-cases, Option-cases, arith,
}
use philotes.Common.Int.{ℤ, pos, negsuc, wrap, ltb_ℤ, ◌+ℤ◌, ◌-ℤ◌, ◌≤ℤ◌, ◌<ℤ◌}
use philotes.Common.Floats.{Floats}
use philotes.Common.Maps.{lookup}
use philotes.Scaling.Query.{
  QueryPolicy, scale_up, scale_down, scale_to_zero, TriggerReason, policy_disabled, in_cooldown,
  no_metrics, within_thresholds, queued_queries, running_queries, p95_latency, no_active_queries,
  low_query_load, Metrics, QueryDecision, QueryEvaluator, leb_ℤ, decide, stay, one_more, one_less,
  min_ℤ, max_ℤ, slow, is_quiet, is_low, evaluate_scale_up, evaluate_scale_down,
  evaluate_query_metrics, is_cooling, evaluate_query_policy,
}

-- An `int` of 64 bits.
abbrev pub IsInt64 : ℤ → Type 0
IsInt64 (pos n) = n < 2 ^ 63
IsInt64 (negsuc n) = n < 2 ^ 63

abbrev next : ℤ → ℤ
next (pos n) = pos (suc n)
next (negsuc zero) = pos 0
next (negsuc (suc n)) = negsuc n

abbrev previous : ℤ → ℤ
previous (pos zero) = negsuc 0
previous (pos (suc n)) = pos n
previous (negsuc n) = negsuc (suc n)

add-next : (a b : ℤ) → IsInt64 a → IsInt64 b → a <ℤ b → a +ℤ pos 1 ≡ next a
unfolding ◌+ℤ◌ wrap
add-next (pos n) (pos k) ha hb h = ground (arith, hb, h)
add-next (pos n) (negsuc k) ha hb h = absurd (omega (arith, h))
add-next (negsuc zero) b ha hb h = refl
add-next (negsuc (suc n)) b ha hb h = ground (arith, ha)

sub-previous : (a b : ℤ) → IsInt64 a → IsInt64 b → b <ℤ a → a -ℤ pos 1 ≡ previous a
unfolding ◌-ℤ◌ wrap
sub-previous (pos zero) b ha hb h = refl
sub-previous (pos (suc n)) b ha hb h = ground (arith, ha)
sub-previous (negsuc n) (pos k) ha hb h = absurd (omega (arith, h))
sub-previous (negsuc n) (negsuc k) ha hb h = ground (arith, hb, h)

next-bounds : (a b : ℤ) → a <ℤ b → (a <ℤ min_ℤ (next a) b) × (min_ℤ (next a) b ≤ℤ b)
next-bounds (pos n) (pos k) h = ground (arith, h)
next-bounds (pos n) (negsuc k) h = ground (arith, h)
next-bounds (negsuc zero) (pos k) h = ground (arith, h)
next-bounds (negsuc zero) (negsuc k) h = ground (arith, h)
next-bounds (negsuc (suc n)) (pos k) h = ground (arith, h)
next-bounds (negsuc (suc n)) (negsuc k) h = ground (arith, h)

previous-bounds : (a b : ℤ) → b <ℤ a → (b ≤ℤ max_ℤ (previous a) b) × (max_ℤ (previous a) b <ℤ a)
previous-bounds (pos zero) (pos k) h = ground (arith, h)
previous-bounds (pos zero) (negsuc k) h = ground (arith, h)
previous-bounds (pos (suc n)) (pos k) h = ground (arith, h)
previous-bounds (pos (suc n)) (negsuc k) h = ground (arith, h)
previous-bounds (negsuc n) (pos k) h = ground (arith, h)
previous-bounds (negsuc n) (negsuc k) h = ground (arith, h)

one_less-bounds :
    (p : QueryPolicy) (current : ℤ)
    → IsInt64 current
    → IsInt64 p.min_replicas
    → p.min_replicas <ℤ current
    → (p.min_replicas ≤ℤ one_less p current) × (one_less p current <ℤ current)
one_less-bounds p current hc hm h =
    rw (sub-previous current p.min_replicas hc hm h) (previous-bounds current p.min_replicas h)

one_more-bounds :
    (p : QueryPolicy) (current : ℤ)
    → IsInt64 current
    → IsInt64 p.max_replicas
    → current <ℤ p.max_replicas
    → (current <ℤ one_more p current) × (one_more p current ≤ℤ p.max_replicas)
one_more-bounds p current hc hm h =
    rw (add-next current p.max_replicas hc hm h) (next-bounds current p.max_replicas h)

ltb-lt : (a b : ℤ) → ltb_ℤ a b ≡ true → a <ℤ b
ltb-lt a b h = ground (arith, h)

leb-lt : (a b : ℤ) → leb_ℤ a b ≡ false → b <ℤ a
leb-lt a b h = ground (arith, h)

module _ {f : Floats} (of_int : ℤ → f.Float) where
  -- Why an evaluation scales up, with the value that it reports.
  pub data Triggered (p : QueryPolicy) (m : Metrics f) : TriggerReason → f.Float → Type 0 where
    by_queue :
        leb_ℤ p.queued_queries_threshold m.queued_queries ≡ true
        → Triggered p m queued_queries (of_int m.queued_queries)
    by_running :
        leb_ℤ p.running_queries_threshold m.running_queries ≡ true
        → Triggered p m running_queries (of_int m.running_queries)
    by_latency : (x : f.Float) → slow of_int p m ≡ some x → Triggered p m p95_latency x

  -- The ways in which an evaluation with metrics decides.
  pub data Measured (p : QueryPolicy) (m : Metrics f) (current : ℤ) : QueryDecision f → Type 0 where
    up :
        (r : TriggerReason) (v : f.Float)
        → Triggered p m r v
        → current <ℤ one_more p current
        → one_more p current ≤ℤ p.max_replicas
        → Measured p m current (decide p current scale_up (one_more p current) r v)
    zero_out :
        p.scale_to_zero ≡ true
        → is_quiet m ≡ true
        → is_low p m ≡ true
        → Measured p m current
            (decide p current scale_to_zero (pos 0) no_active_queries (of_int (pos 0)))
    down :
        is_low p m ≡ true
        → p.min_replicas ≤ℤ one_less p current
        → one_less p current <ℤ current
        → Measured p m current (
            decide p current scale_down
              (one_less p current)
              low_query_load
              (of_int m.running_queries))
    within : Measured p m current (stay of_int p current within_thresholds)

  -- The ways in which an evaluation decides.
  pub data Decided (now : ℕ) (p : QueryPolicy) (current : ℤ) (e : QueryEvaluator f)
      : QueryDecision f → Type 0 where
    disabled : p.enabled ≡ false → Decided now p current e (stay of_int p current policy_disabled)
    cooling :
        is_cooling now p e ≡ true → Decided now p current e (stay of_int p current in_cooldown)
    unmeasured :
        lookup p.query_engine e.cached ≡ none
        → Decided now p current e (stay of_int p current no_metrics)
    measured :
        (m : Metrics f) (d : QueryDecision f)
        → p.enabled ≡ true
        → is_cooling now p e ≡ false
        → lookup p.query_engine e.cached ≡ some m
        → Measured p m current d
        → Decided now p current e d

  -- What is found for an evaluation, if anything.
  abbrev MayBe : QueryPolicy → Metrics f → ℤ → Option (QueryDecision f) → Type 0
  MayBe p m current none = Unit
  MayBe p m current (some d) = Measured p m current d

  up-Measured :
      (p : QueryPolicy) (m : Metrics f) (current : ℤ)
      → IsInt64 current
      → IsInt64 p.max_replicas
      → MayBe p m current (evaluate_scale_up of_int p m current)
  unfolding evaluate_scale_up
  up-Measured p m current hc hm = elim (Bool-cases (leb_ℤ p.max_replicas current)) [
    | inl x ↦ rw (x, evaluate_scale_up) tt
    | inr x ↦
        let b = one_more-bounds p current hc hm (leb-lt p.max_replicas current x) in
        elim (Bool-cases (leb_ℤ p.queued_queries_threshold m.queued_queries)) [
          | inl y ↦ rw (x, y, evaluate_scale_up) (up _ _ (by_queue y) b.0 b.1)
          | inr y ↦ elim (Bool-cases (leb_ℤ p.running_queries_threshold m.running_queries)) [
            | inl z ↦ rw (x, y, z, evaluate_scale_up) (up _ _ (by_running z) b.0 b.1)
            | inr z ↦ elim (Option-cases (slow of_int p m)) [
              | inl w ↦ rw (x, y, z, w, evaluate_scale_up) tt
              | inr (v, w) ↦ rw (x, y, z, w, evaluate_scale_up) (up _ v (by_latency v w) b.0 b.1)
            ]
          ]
        ]
  ]

  down-Measured :
      (p : QueryPolicy) (m : Metrics f) (current : ℤ)
      → IsInt64 current
      → IsInt64 p.min_replicas
      → MayBe p m current (evaluate_scale_down of_int p m current)
  unfolding evaluate_scale_down
  down-Measured p m current hc hm =
      elim (Bool-cases (leb_ℤ current p.min_replicas && not p.scale_to_zero)) [
        | inl x ↦ rw (x, evaluate_scale_down) tt
        | inr x ↦ elim (Bool-cases (is_low p m)) [
          | inr y ↦ rw (x, y, evaluate_scale_down) tt
          | inl y ↦ elim (Bool-cases (p.scale_to_zero && is_quiet m)) [
            | inl z ↦
                rw (x, y, z, evaluate_scale_down)
                  (zero_out (ground (arith, z)) (ground (arith, z)) y)
            | inr z ↦ elim (Bool-cases (ltb_ℤ p.min_replicas current)) [
              | inl w ↦
                  let b = one_less-bounds p current hc hm (ltb-lt p.min_replicas current w) in
                  rw (x, y, z, w, evaluate_scale_down) (down y b.0 b.1)
              | inr w ↦ rw (x, y, z, w, evaluate_scale_down) tt
            ]
          ]
        ]
      ]

  metrics-Measured :
      (p : QueryPolicy) (m : Metrics f) (current : ℤ)
      → IsInt64 current
      → IsInt64 p.min_replicas
      → IsInt64 p.max_replicas
      → Measured p m current (evaluate_query_metrics of_int p m current)
  unfolding evaluate_query_metrics
  metrics-Measured p m current hc hl hm =
      elim (Option-cases (evaluate_scale_up of_int p m current)) [
        | inr (d, x) ↦
            rw (x, evaluate_query_metrics)
              (subst (λ o. MayBe p m current o) x (up-Measured p m current hc hm))
        | inl x ↦ elim (Option-cases (evaluate_scale_down of_int p m current)) [
          | inr (d, y) ↦
              rw (x, y, evaluate_query_metrics)
                (subst (λ o. MayBe p m current o) y (down-Measured p m current hc hl))
          | inl y ↦ rw (x, y, evaluate_query_metrics) within
        ]
      ]

  -- An evaluation of a query policy whose numbers are integers of 64 bits stays at the current
  -- replicas if the policy is disabled, cools down, or has no metrics. Otherwise it scales up by one,
  -- to at most the maximum, for a threshold that is reached; to 0 only if that is allowed and no query
  -- is queued, runs or is blocked; down by one, to at least the minimum, only if the queries that are
  -- queued and those that run are both below half of their thresholds; or it stays.
  pub evaluate_query_policy-Decided :
      (now : ℕ) (p : QueryPolicy) (current : ℤ) (e : QueryEvaluator f)
      → IsInt64 current
      → IsInt64 p.min_replicas
      → IsInt64 p.max_replicas
      → Decided now p current e (evaluate_query_policy of_int now p current e)
  unfolding evaluate_query_policy
  evaluate_query_policy-Decided now p current e hc hl hm = elim (Bool-cases p.enabled) [
    | inr x ↦
        let same : stay of_int p current policy_disabled
            ≡ evaluate_query_policy of_int now p current e =
          rw (x, evaluate_query_policy) refl in
        subst (λ d. Decided now p current e d) same (disabled x)
    | inl x ↦ elim (Bool-cases (is_cooling now p e)) [
      | inl y ↦ rw (x, y, evaluate_query_policy) (cooling y)
      | inr y ↦ elim (Option-cases (lookup p.query_engine e.cached)) [
        | inl z ↦ rw (x, y, z, evaluate_query_policy) (unmeasured z)
        | inr (m, z) ↦
            let same : evaluate_query_metrics of_int p m current
                ≡ evaluate_query_policy of_int now p current e =
              rw (z, y, x, evaluate_query_policy) refl in
            subst (λ d. Decided now p current e d) same
              (measured m _ x y z (metrics-Measured p m current hc hl hm))
      ]
    ]
  ]
