-- ===== src/Common/Maps.antt =====
-- Maps from texts, as association lists with one entry for each key that is put there.
use Prim.Native.String.{String}
use text.Mathlib.Text.{◌==◌ as str_eq}
use text.Mathlib.TextEquality.{eq_iff}
use mathlib.Core.Path.{◌≡◌, refl, sym}
use mathlib.Core.Bool.{true, false, not}
use mathlib.Core.Option.{Option, none, some}
use mathlib.Core.List.{List, [], ◌∷◌}
use mathlib.Core.Logic.{inl, inr}
use native.Mathlib.Omega.{arith}
use philotes.Common.Tests.{if◌then◌else◌, Bool-cases}
use philotes.Common.Lists.{keep}

module _ {A : Type 0} where
  unfoldable pub lookup : String → List (String × A) → Option A
  lookup key [] = none
  lookup key ((k, t) ∷ rest) = let there = lookup key rest in if str_eq k key then some t else there

  unfoldable pub remove : String → List (String × A) → List (String × A)
  remove key m = keep (λ e. not (str_eq e.0 key)) m

  unfoldable pub put : String → A → List (String × A) → List (String × A)
  unfolding remove
  put key a m = (key, a) ∷ remove key m

same_key : (a b c : String) → str_eq a b ≡ true → str_eq a c ≡ true → str_eq c b ≡ true
same_key a b c h k = rw (sym ((eq_iff a c).0 k)) h

other_key : (a b c : String) → str_eq a b ≡ false → str_eq a c ≡ true → str_eq c b ≡ false
other_key a b c h k = rw (sym ((eq_iff a c).0 k)) h

pub remove-clears :
    {A : Type 0} (key k : String) (m : List (String × A))
    → str_eq k key ≡ true
    → lookup k (remove key m) ≡ none
unfolding lookup remove
remove-clears key k [] e = refl
remove-clears key k ((k0, t0) ∷ m) e = elim (Bool-cases (str_eq k0 key)) [
  | inl gone ↦ ground (arith, gone, remove-clears key k m e)
  | inr kept ↦ elim (Bool-cases (str_eq k0 k)) [
    | inr other_ ↦ ground (arith, kept, other_, remove-clears key k m e)
    | inl same ↦ absurd (ground (arith, e, other_key k0 key k kept same))
  ]
]

pub lookup-remove :
    {A : Type 0} (key k : String) (t : A) (m : List (String × A))
    → lookup k (remove key m) ≡ some t
    → lookup k m ≡ some t
unfolding lookup remove
lookup-remove key k t [] h = h
lookup-remove key k t ((k0, t0) ∷ m) h = elim (Bool-cases (str_eq k0 key)) [
  | inr kept ↦ ground (arith, kept, lookup-remove key k t m)
  | inl gone ↦ elim (Bool-cases (str_eq k0 k)) [
    | inr other_ ↦ ground (arith, gone, other_, lookup-remove key k t m)
    | inl same ↦
        absurd (ground (arith, h, gone, remove-clears key k m (same_key k0 key k gone same)))
  ]
]

remove-keeps :
    {A : Type 0} (key k : String) (m : List (String × A))
    → str_eq key k ≡ false
    → lookup k (remove key m) ≡ lookup k m
unfolding lookup remove
remove-keeps key k [] e = refl
remove-keeps key k ((k0, t0) ∷ m) e = elim (Bool-cases (str_eq k0 key)) [
  | inr kept ↦ ground (arith, kept, remove-keeps key k m e)
  | inl gone ↦
      let other : str_eq k0 k ≡ false = rw ((eq_iff k0 key).0 gone) e in
      ground (arith, gone, other, remove-keeps key k m e)
]

-- What is put is found, and the other entries stay.
pub lookup-put :
    {A : Type 0} (key k : String) (a : A) (m : List (String × A))
    → lookup k (put key a m) ≡ (if str_eq key k then some a else lookup k m)
unfolding lookup put
lookup-put key k a m = elim (Bool-cases (str_eq key k)) [
  | inl same ↦ ground (arith, same)
  | inr other ↦ ground (arith, other, remove-keeps key k m other)
]

-- What is removed is not found, and the other entries stay.
pub lookup-without :
    {A : Type 0} (key k : String) (m : List (String × A))
    → lookup k (remove key m) ≡ (if str_eq key k then none else lookup k m)
unfolding lookup
lookup-without key k m = elim (Bool-cases (str_eq key k)) [
  | inl same ↦
      let turned : str_eq k key ≡ true = (eq_iff k key).1 (sym ((eq_iff key k).0 same)) in
      ground (arith, same, remove-clears key k m turned)
  | inr other ↦ ground (arith, other, remove-keeps key k m other)
]
