-- ===== src/Common/Actions.antt =====
-- Actions on a state that return or raise an error, with `do`, and what they ensure: one rule for each way
-- to build an action.
use mathlib.Core.Path.{◌≡◌, refl}
use mathlib.Core.Bool.{Bool, true, false}
use mathlib.Core.Option.{Option, none, some}
use philotes.Common.Tests.{if◌then◌else◌}

pub data Answer (X A : Type 0) : Type 0 where
  done : A → Answer X A
  raised : X → Answer X A

-- What was written before an error stays written.
abbrev pub Action : Type 0 → Type 0 → Type 0 → Type 0
Action X S A = S → Answer X A × S

module _ {X S A : Type 0} where
  unfoldable pub pure : A → Action X S A
  pure a s = (done a, s)

  unfoldable pub raise : X → Action X S A
  raise x s = (raised x, s)

  unfoldable pub some_or : X → Option A → Action X S A
  some_or x none s = (raised x, s)
  some_or x (some a) s = (done a, s)

module _ {X S A B : Type 0} where
  abbrev go_on : Answer X A × S → (A → Action X S B) → Answer X B × S
  go_on (done a, s) f = f a s
  go_on (raised x, s) f = (raised x, s)

  infixl 5 ◌>>=◌ ◌>>◌
  unfoldable pub ◌>>=◌ : Action X S A → (A → Action X S B) → Action X S B
  unfolding pure raise some_or
  ◌>>=◌ m f s = go_on (m s) f

  abbrev pub ◌>>◌ : Action X S A → Action X S B → Action X S B
  m >> n = m >>= λ _. n

-- Another error in the place of each.
abbrev relabel : {X Y S A : Type 0} → (X → Y) → Answer X A × S → Answer Y A × S
relabel f (done a, s) = (done a, s)
relabel f (raised x, s) = (raised (f x), s)

unfoldable pub with_error : {X Y S A : Type 0} → (X → Y) → Action X S A → Action Y S A
with_error f m s = relabel f (m s)

abbrev pub Ends : {X S A : Type 0} → (A → S → Type 0) → (S → Type 0) → Answer X A × S → Type 0
Ends Q E (done a, s) = Q a s
Ends Q E (raised x, s) = E s

-- From a state with `P` the action returns some value and state with `Q`, or raises in a state with `E`.
pub record Meets {X S A : Type 0} (P : S → Type 0) (m : Action X S A) (Q : A → S → Type 0)
    (E : S → Type 0) : Type 0 where
  pub at : (s : S) → P s → Ends Q E (m s)

module _ {X S A : Type 0} {P : S → Type 0} {Q : A → S → Type 0} {E : S → Type 0} where
  pub Meets-pure : (a : A) → ((s : S) → P s → Q a s) → Meets P (pure {X = X} a) Q E
  unfolding pure
  Meets-pure a h = record { at = λ s p. h s p }

  pub Meets-raise : (x : X) → ((s : S) → P s → E s) → Meets {A = A} P (raise x) Q E
  unfolding raise
  Meets-raise x h = record { at = λ s p. h s p }

  pub Meets-some_or :
      (x : X) (o : Option A)
      → ((s : S) → P s → E s)
      → ((a : A) → o ≡ some a → (s : S) → P s → Q a s)
      → Meets P (some_or x o) Q E
  unfolding some_or
  Meets-some_or x none e h = record { at = λ s p. e s p }
  Meets-some_or x (some a) e h = record { at = λ s p. h a refl s p }

  pub Meets-if :
      (b : Bool) (m n : Action X S A)
      → (b ≡ true → Meets P m Q E)
      → (b ≡ false → Meets P n Q E)
      → Meets P (if b then m else n) Q E
  Meets-if true m n km kn = km refl
  Meets-if false m n km kn = kn refl

module _ {X S A B : Type 0} (Q : A → S → Type 0) (R : B → S → Type 0) (E : S → Type 0) where
  go_on-Ends :
      (r : Answer X A × S) (f : A → Action X S B)
      → Ends Q E r
      → ((a : A) → Meets (Q a) (f a) R E)
      → Ends R E (go_on r f)
  go_on-Ends (done a, s) f q k = (k a).at s q
  go_on-Ends (raised x, s) f e k = e

module _ {X S A B : Type 0} {P : S → Type 0} {Q : A → S → Type 0} {R : B → S → Type 0}
    {E : S → Type 0} where
  pub Meets-bind :
      (m : Action X S A) (f : A → Action X S B)
      → Meets P m Q E
      → ((a : A) → Meets (Q a) (f a) R E)
      → Meets P (m >>= f) R E
  unfolding ◌>>=◌
  Meets-bind m f k kf = record { at = λ s p. go_on-Ends Q R E (m s) f (k.at s p) kf }

relabel-Ends :
    {X Y S A : Type 0} (Q : A → S → Type 0) (E : S → Type 0) (f : X → Y) (r : Answer X A × S)
    → Ends Q E r
    → Ends Q E (relabel f r)
relabel-Ends Q E f (done a, s) h = h
relabel-Ends Q E f (raised x, s) h = h

module _ {X Y S A : Type 0} {P : S → Type 0} {Q : A → S → Type 0} {E : S → Type 0} where
  pub Meets-with_error :
      (f : X → Y) (m : Action X S A) → Meets P m Q E → Meets P (with_error f m) Q E
  unfolding with_error
  Meets-with_error f m k = record { at = λ s p. relabel-Ends Q E f (m s) (k.at s p) }

Ends-weaken :
    {X S A : Type 0} (Q R : A → S → Type 0) (E : S → Type 0) (r : Answer X A × S)
    → ((a : A) (s : S) → Q a s → R a s)
    → Ends Q E r
    → Ends R E r
Ends-weaken Q R E (done a, s) k h = k a s h
Ends-weaken Q R E (raised x, s) k h = h

pub Meets-weaken :
    {X S A : Type 0} {P : S → Type 0} {Q R : A → S → Type 0} {E : S → Type 0} {m : Action X S A}
    → Meets P m Q E
    → ((a : A) (s : S) → Q a s → R a s)
    → Meets P m R E
Meets-weaken {Q} {R} {E} {m} k q = record { at = λ s p. Ends-weaken Q R E (m s) q (k.at s p) }

-- An option that is there before the rest runs.
pub Meets-given :
    {X S A B : Type 0} {P : S → Type 0} {R : B → S → Type 0} {E : S → Type 0} (x : X) (o : Option A)
    (k : A → Action X S B)
    → ((s : S) → P s → E s)
    → ((a : A) → o ≡ some a → Meets P (k a) R E)
    → Meets P (some_or x o >>= k) R E
unfolding ◌>>=◌
Meets-given x none k e h = record { at = λ s p. e s p }
Meets-given x (some a) k e h = h a refl
