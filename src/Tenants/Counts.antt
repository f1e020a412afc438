-- ===== src/Tenants/Counts.antt =====
-- How many rows of a list are of a kind, before and after a write.
use philotes.Common.{
  ℕ, ◌+◌, ◌≤◌, Bool, true, false, ◌≡◌, refl, List, [], ◌∷◌, ◌++◌, map, keep, length, Bool-cases,
  inl, inr, arith,
}

unfoldable pub count : {A : Type 0} → (A → Bool) → List A → ℕ
count p xs = length (keep p xs)

module _ {A : Type 0} where
  pub count-append : (p : A → Bool) (xs ys : List A) → count p (xs ++ ys) ≡ count p xs + count p ys
  unfolding count
  count-append p [] ys = omega (arith)
  count-append p (x ∷ xs) ys = elim (Bool-cases (p x)) [
    | inl e ↦ ground (arith, e, count-append p xs ys)
    | inr e ↦ ground (arith, e, count-append p xs ys)
  ]

  -- A row of the one kind that is lost is of the other.
  pub count-map :
      (p q : A → Bool) (g : A → A) (xs : List A)
      → ((x : A) → p x ≡ true → p (g x) ≡ false → q x ≡ true)
      → count p xs ≤ count p (map g xs) + count q xs
  unfolding count
  count-map p q g [] h = ground (arith)
  count-map p q g (x ∷ xs) h = elim (Bool-cases (p x)) [
    | inr e ↦ elim (Bool-cases (q x)) [
      | inl l ↦ elim (Bool-cases (p (g x))) [
        | inl k ↦ ground (arith, e, k, l, count-map p q g xs h)
        | inr k ↦ ground (arith, e, k, l, count-map p q g xs h)
      ]
      | inr l ↦ elim (Bool-cases (p (g x))) [
        | inl k ↦ ground (arith, e, k, l, count-map p q g xs h)
        | inr k ↦ ground (arith, e, k, l, count-map p q g xs h)
      ]
    ]
    | inl e ↦ elim (Bool-cases (p (g x))) [
      | inr k ↦ ground (arith, e, k, h x e k, count-map p q g xs h)
      | inl k ↦ elim (Bool-cases (q x)) [
        | inl l ↦ ground (arith, e, k, l, count-map p q g xs h)
        | inr l ↦ ground (arith, e, k, l, count-map p q g xs h)
      ]
    ]
  ]

  pub count-keep :
      (p q r : A → Bool) (xs : List A)
      → ((x : A) → p x ≡ true → r x ≡ false → q x ≡ true)
      → count p xs ≤ count p (keep r xs) + count q xs
  unfolding count
  count-keep p q r [] h = ground (arith)
  count-keep p q r (x ∷ xs) h = elim (Bool-cases (r x)) [
    | inl k ↦ elim (Bool-cases (p x)) [
      | inl e ↦ elim (Bool-cases (q x)) [
        | inl l ↦ ground (arith, e, k, l, count-keep p q r xs h)
        | inr l ↦ ground (arith, e, k, l, count-keep p q r xs h)
      ]
      | inr e ↦ elim (Bool-cases (q x)) [
        | inl l ↦ ground (arith, e, k, l, count-keep p q r xs h)
        | inr l ↦ ground (arith, e, k, l, count-keep p q r xs h)
      ]
    ]
    | inr k ↦ elim (Bool-cases (p x)) [
      | inl e ↦ ground (arith, e, k, h x e k, count-keep p q r xs h)
      | inr e ↦ elim (Bool-cases (q x)) [
        | inl l ↦ ground (arith, e, k, l, count-keep p q r xs h)
        | inr l ↦ ground (arith, e, k, l, count-keep p q r xs h)
      ]
    ]
  ]

  pub count_mono :
      (p q : A → Bool) (xs : List A) → ((x : A) → p x ≡ true → q x ≡ true) → count p xs ≤ count q xs
  unfolding count
  count_mono p q [] h = ground (arith)
  count_mono p q (x ∷ xs) h = elim (Bool-cases (p x)) [
    | inl e ↦ ground (arith, e, h x e, count_mono p q xs h)
    | inr e ↦ elim (Bool-cases (q x)) [
      | inl l ↦ ground (arith, e, l, count_mono p q xs h)
      | inr l ↦ ground (arith, e, l, count_mono p q xs h)
    ]
  ]

  pub count-le_keep : (p r : A → Bool) (xs : List A) → count p (keep r xs) ≤ count p xs
  unfolding count
  count-le_keep p r [] = ground (arith)
  count-le_keep p r (x ∷ xs) = elim (Bool-cases (r x)) [
    | inl k ↦ elim (Bool-cases (p x)) [
      | inl e ↦ ground (arith, e, k, count-le_keep p r xs)
      | inr e ↦ ground (arith, e, k, count-le_keep p r xs)
    ]
    | inr k ↦ elim (Bool-cases (p x)) [
      | inl e ↦ ground (arith, e, k, count-le_keep p r xs)
      | inr e ↦ ground (arith, e, k, count-le_keep p r xs)
    ]
  ]

  pub count-none : (p : A → Bool) (xs : List A) → ((x : A) → p x ≡ false) → count p xs ≡ 0
  unfolding count
  count-none p [] h = refl
  count-none p (x ∷ xs) h = ground (arith, h x, count-none p xs h)

  pub count-map_same :
      (p : A → Bool) (g : A → A) (xs : List A)
      → ((x : A) → p (g x) ≡ p x)
      → count p (map g xs) ≡ count p xs
  unfolding count
  count-map_same p g [] h = refl
  count-map_same p g (x ∷ xs) h = elim (Bool-cases (p x)) [
    | inl e ↦ ground (arith, e, h x, count-map_same p g xs h)
    | inr e ↦ ground (arith, e, h x, count-map_same p g xs h)
  ]
