-- ===== src/Pipeline/Retry/Backoff.antt =====
-- Bounds on the waits of the retryer.
use philotes.Common.{
  ℕ, ◌+◌, ◌-◌, ◌*◌, ◌/◌, ◌^◌, ◌≤◌, ◌<◌, ◌≡◌, ◌⊎◌, inl, inr, true, false, none, some, arith,
  Bool-cases, ◌==◌,
}
use philotes.Common.Floats.{Floats, FloatLaws}
use philotes.Pipeline.Retry.{
  RetryPolicy, raw_backoff, add_jitter, capped_backoff, calculate_backoff,
}

capped_backoff-le :
    (f : Floats) (laws : FloatLaws f) (p : RetryPolicy f) (attempt : ℕ)
    → p.max_interval < 2 ^ 53
    → f.is_nan (raw_backoff f p attempt) ≡ false
    → capped_backoff f p attempt ≤ p.max_interval
unfolding capped_backoff
capped_backoff-le f laws p attempt small num =
    elim (Bool-cases (f.gtb (raw_backoff f p attempt) (f.of_int p.max_interval))) [
      | inl above ↦ rw (above, capped_backoff) (omega (arith, laws.exact p.max_interval small))
      | inr below ↦ rw (below, capped_backoff) (laws.truncates _ _ small num below)
    ]

-- Within a quarter of the duration, and a panic exactly below 4 ns.
add_jitter-bounds :
    (d : ℕ) (random : ℕ → ℕ)
    → ((n : ℕ) → 0 < n → random n < n)
    → ((add_jitter d random ≡ none) × (d < 4))
      ⊎ ((w : ℕ) × (add_jitter d random ≡ some w) × (4 ≤ d) × (d - d / 4 ≤ w) × (w ≤ d + d / 4))
unfolding add_jitter
add_jitter-bounds d random r = elim (Bool-cases (d / 4 * 2 == 0)) [
  | inl none_ ↦ inl (rw none_, ground arith)
  | inr some_ ↦
      let pos : 0 < d / 4 * 2 = ground arith in
      let bound = r (d / 4 * 2) pos in
      inr (d - d / 4 + random (d / 4 * 2), rw some_, omega arith, omega arith, omega arith)
]

-- Under the laws of `float64`, with a maximum that is an exact float and a product that is a number,
-- the capped backoff is at most the maximum. Without the jitter it is the wait. With the jitter the
-- computation panics if the capped backoff is below 4 ns, and otherwise the wait is within a quarter
-- of it.
pub calculate_backoff-bounds :
    (f : Floats) (laws : FloatLaws f) (p : RetryPolicy f) (random : ℕ → ℕ) (attempt : ℕ)
    → ((n : ℕ) → 0 < n → random n < n)
    → p.max_interval < 2 ^ 53
    → f.is_nan (raw_backoff f p attempt) ≡ false
    → let d = capped_backoff f p attempt in
      let result = calculate_backoff f p random attempt in
      (d ≤ p.max_interval)
      × (((p.jitter ≡ false) × (result ≡ some d))
          ⊎ ((p.jitter ≡ true) × (result ≡ none) × (d < 4))
          ⊎ ((w : ℕ) × (p.jitter ≡ true)
              × (result ≡ some w)
              × (4 ≤ d)
              × (d - d / 4 ≤ w)
              × (w ≤ d + d / 4)))
unfolding calculate_backoff
calculate_backoff-bounds f laws p random attempt r small num =
    (capped_backoff-le f laws p attempt small num, cases (Bool-cases p.jitter))
  where
    cases :
        (p.jitter ≡ true) ⊎ (p.jitter ≡ false)
        → let d = capped_backoff f p attempt in
          let result = calculate_backoff f p random attempt in
          ((p.jitter ≡ false) × (result ≡ some d))
          ⊎ ((p.jitter ≡ true) × (result ≡ none) × (d < 4))
          ⊎ ((w : ℕ) × (p.jitter ≡ true)
              × (result ≡ some w)
              × (4 ≤ d)
              × (d - d / 4 ≤ w)
              × (w ≤ d + d / 4))
    cases (inr off) = inl (off, simp off)
    cases (inl on) = elim (add_jitter-bounds (capped_backoff f p attempt) random r) [
      | inl (e, small_) ↦ inr (inl (on, simp (on, e), small_))
      | inr (w, e, big, lo, hi) ↦ inr (inr (w, on, simp (on, e), big, lo, hi))
    ]
