-- ===== src/Health/Answers.antt =====
-- What the endpoints of the health checks answer, in whichever order the results are read.
use mathlib.Core.List.{Perm, Permᴰ}
use mathlib.Core.Bool.{Bool-set}
use mathlib.Core.Logic.{∥∥₁_elim}
use philotes.Common.{
  ℕ, ◌≡◌, refl, ap, ap₂, ◌∙◌, inl, inr, Bool, true, false, not, ◌&&◌, ◌||◌, [], ◌∷◌, if◌then◌else◌,
  Bool-cases, arith,
}
use philotes.Health.{
  HealthStatus, healthy, unhealthy, degraded, unknown, other_status, is_healthy_status,
  is_unhealthy_status, is_degraded_status, Results, HealthManager, check_all, all_healthy,
  next_status, overall_status, is_healthy, get_overall_status, health_code, handle_health,
  handle_readiness,
}

-- Some result has a status that passes a test.
unfoldable pub any_result : (HealthStatus → Bool) → Results → Bool
any_result p [] = false
any_result p ((name, r) ∷ rest) = p r.status || any_result p rest

-- A status with which the endpoint for readiness does not answer OK.
abbrev pub is_bad : HealthStatus → Bool
is_bad s = not (is_healthy_status s) && not (is_degraded_status s)

-- A status that the overall status shows, if there is no worse one before it.
abbrev pub is_known_fault : HealthStatus → Bool
is_known_fault healthy = false
is_known_fault (other_status s) = false
is_known_fault degraded = true
is_known_fault unknown = true
is_known_fault unhealthy = true

any_result-Permᴰ :
    (p : HealthStatus → Bool) (xs ys : Results) → Permᴰ xs ys → any_result p xs ≡ any_result p ys
unfolding any_result
any_result-Permᴰ p [] [] Permᴰ.nil = refl
any_result-Permᴰ p ((_, a) ∷ xs) ((_, b) ∷ ys) (Permᴰ.cons e h) =
    ap₂ (λ u v. p u.1.status || v) e (any_result-Permᴰ p xs ys h)
any_result-Permᴰ p (a ∷ b ∷ xs) (c ∷ d ∷ ys) (Permᴰ.swap e f) =
    rw (ap (λ u. p u.1.status) e, ap (λ u. p u.1.status) f) (ground arith)
any_result-Permᴰ p xs ys (Permᴰ.trans h k) = any_result-Permᴰ p _ _ h ∙ any_result-Permᴰ p _ _ k

all_healthy-any_result : (rs : Results) → all_healthy rs ≡ not (any_result is_bad rs)
unfolding all_healthy any_result
all_healthy-any_result [] = refl
all_healthy-any_result ((name, r) ∷ rest) = ground (arith, all_healthy-any_result rest)

next_status-unhealthy :
    (s t : HealthStatus)
    → is_unhealthy_status s ≡ false
    → is_unhealthy_status t ≡ false
    → is_unhealthy_status (next_status s t) ≡ false
next_status-unhealthy s healthy h k = h
next_status-unhealthy s unhealthy h k = k
next_status-unhealthy s (other_status x) h k = h
next_status-unhealthy s degraded h k = elim (Bool-cases (is_healthy_status s)) [
  | inl y ↦ rw y refl
  | inr n ↦ rw n h
]
next_status-unhealthy s unknown h k = elim (Bool-cases (is_healthy_status s)) [
  | inl y ↦ rw y refl
  | inr n ↦ rw n h
]

next_status-healthy :
    (s t : HealthStatus)
    → is_healthy_status (next_status s t) ≡ (is_healthy_status s && not (is_known_fault t))
next_status-healthy s healthy = ground arith
next_status-healthy s unhealthy = ground arith
next_status-healthy s (other_status x) = ground arith
next_status-healthy s degraded = elim (Bool-cases (is_healthy_status s)) [
  | inl y ↦ rw y refl
  | inr n ↦ rw n n
]
next_status-healthy s unknown = elim (Bool-cases (is_healthy_status s)) [
  | inl y ↦ rw y refl
  | inr n ↦ rw n n
]

unhealthy_is_known : (t : HealthStatus) → is_unhealthy_status t ≡ true → is_known_fault t ≡ true
unhealthy_is_known healthy h = h
unhealthy_is_known unhealthy h = refl
unhealthy_is_known degraded h = refl
unhealthy_is_known unknown h = refl
unhealthy_is_known (other_status s) h = h

is_unhealthy-overall_status :
    (s : HealthStatus) (rs : Results)
    → is_unhealthy_status s ≡ false
    → is_unhealthy_status (overall_status s rs) ≡ any_result is_unhealthy_status rs
unfolding overall_status any_result
is_unhealthy-overall_status s [] h = h
is_unhealthy-overall_status s ((name, r) ∷ rest) h =
    elim (Bool-cases (is_unhealthy_status r.status)) [
      | inl bad ↦ rw (bad) refl
      | inr fine ↦ rw (fine) (
          is_unhealthy-overall_status (next_status s r.status) rest
            (next_status-unhealthy s r.status h fine))
    ]

is_healthy-overall_status :
    (s : HealthStatus) (rs : Results)
    → is_healthy_status (overall_status s rs)
      ≡ (is_healthy_status s && not (any_result is_known_fault rs))
unfolding overall_status any_result
is_healthy-overall_status s [] = ground arith
is_healthy-overall_status s ((name, r) ∷ rest) = elim (Bool-cases (is_unhealthy_status r.status)) [
  | inl bad ↦ rw (bad, unhealthy_is_known r.status bad) (ground arith)
  | inr fine ↦ rw (fine) (
      is_healthy-overall_status (next_status s r.status) rest
      ∙ rw (next_status-healthy s r.status) (ground arith))
]

next_status-bad :
    (s t : HealthStatus) → is_bad s ≡ false → is_bad t ≡ false → is_bad (next_status s t) ≡ false
next_status-bad s healthy h k = h
next_status-bad s unhealthy h k = k
next_status-bad s (other_status x) h k = h
next_status-bad s degraded h k = elim (Bool-cases (is_healthy_status s)) [
  | inl y ↦ rw y refl
  | inr n ↦ rw n (ground (arith, n, h))
]
next_status-bad s unknown h k = absurd (ground (arith, k))

unhealthy_is_bad : (t : HealthStatus) → is_bad t ≡ false → is_unhealthy_status t ≡ false
unhealthy_is_bad healthy h = refl
unhealthy_is_bad unhealthy h = h
unhealthy_is_bad degraded h = refl
unhealthy_is_bad unknown h = refl
unhealthy_is_bad (other_status s) h = refl

is_bad-overall_status :
    (s : HealthStatus) (rs : Results)
    → is_bad s ≡ false
    → any_result is_bad rs ≡ false
    → is_bad (overall_status s rs) ≡ false
unfolding overall_status any_result
is_bad-overall_status s [] h k = h
is_bad-overall_status s ((name, r) ∷ rest) h k = elim (Bool-cases (is_bad r.status)) [
  | inl bad ↦ absurd (ground (arith, bad, k))
  | inr fine ↦ rw (unhealthy_is_bad r.status fine) (
      is_bad-overall_status (next_status s r.status) rest (next_status-bad s r.status h fine)
        (ground (arith, fine, k)))
]

code_of_fine : (s : HealthStatus) → is_bad s ≡ false → health_code s ≡ 200
code_of_fine healthy h = refl
code_of_fine degraded h = refl
code_of_fine unhealthy h = absurd (ground (arith, h))
code_of_fine unknown h = absurd (ground (arith, h))
code_of_fine (other_status x) h = absurd (ground (arith, h))

none_bad : (b : Bool) (code : ℕ) → code ≡ (if b then 503 else 200) → code ≡ 200 → b ≡ false
none_bad false code h k = refl
none_bad true code h k = absurd (omega (arith, h, k))

-- The results in another order.
abbrev pub Reorders : (Results → Results) → Type 0
Reorders order = (rs : Results) → Perm (order rs) rs

any_result-order :
    (p : HealthStatus → Bool) (order : Results → Results)
    → Reorders order
    → (rs : Results) → any_result p (order rs) ≡ any_result p rs
any_result-order p order law rs =
    ∥∥₁_elim (law rs) (Bool-set _ _) (any_result-Permᴰ p (order rs) rs)

-- The program reads the map of results in an order of its own at each call. Whichever these orders are: the
-- overall status is unhealthy just if some result is; it is healthy just if no result is unhealthy, degraded
-- or unknown; the endpoint for readiness answers OK just if each result is healthy or degraded; and if it
-- does, then the endpoint for health answers OK as well.
pub health-agrees :
    {W : Type 0} (order order2 : Results → Results) (now : ℕ) (m : HealthManager W) (w : W)
    → Reorders order
    → Reorders order2
    → (is_unhealthy_status (get_overall_status order now m w).0.status
        ≡ any_result is_unhealthy_status (check_all m w).0)
      × (is_healthy_status (get_overall_status order now m w).0.status
          ≡ not (any_result is_known_fault (check_all m w).0))
      × (handle_readiness order2 m w ≡ (if any_result is_bad (check_all m w).0 then 503 else 200))
      × (handle_readiness order2 m w ≡ 200 → (handle_health order now m w).0 ≡ 200)
unfolding get_overall_status handle_health handle_readiness is_healthy
health-agrees order order2 now m w law law2 =
    let rs = (check_all m w).0 in
    let ready : handle_readiness order2 m w ≡ (if any_result is_bad rs then 503 else 200) =
      rw (all_healthy-any_result (order2 rs), any_result-order is_bad order2 law2 rs)
        (ground arith) in
    (
      is_unhealthy-overall_status healthy (order rs) refl
          ∙ any_result-order is_unhealthy_status order law rs,
      is_healthy-overall_status healthy (order rs)
          ∙ ap not (any_result-order is_known_fault order law rs),
      ready,
      λ answer. code_of_fine (overall_status healthy (order rs)) (
          is_bad-overall_status healthy (order rs) refl (
            any_result-order is_bad order law rs
            ∙ none_bad (any_result is_bad rs) (handle_readiness order2 m w) ready answer)),
    )
