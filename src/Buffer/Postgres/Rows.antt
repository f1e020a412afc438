-- ===== src/Buffer/Postgres/Rows.antt =====
-- Rows of the table: their order, their numbers, and the event that each holds.
use Prim.Native.String.{String}
use text.Mathlib.Text.{◌==◌ as str_eq}
use philotes.Common.{
  ℕ, zero, suc, ◌≤◌, ◌≡◌, refl, ap, ap₂, Bool, false, none, some, List, [], ◌∷◌, ◌++◌, map, take,
  drop, keep, elem, Bool-cases, inl, inr, arith,
}
use philotes.Cdc.{Event}
use philotes.Buffer.{BufferedEvent}
use philotes.Buffer.Postgres.{
  Row, json_marshal_nullable, json_unmarshal_nullable, to_row, of_row, to_rows, order_rows,
  insert_row, is_waiting, stamp_rows,
}

json_round_trip {ℓ} :
    {A : Type ℓ} (xs : List A) → json_unmarshal_nullable (json_marshal_nullable xs) ≡ xs
unfolding json_marshal_nullable json_unmarshal_nullable
json_round_trip [] = refl
json_round_trip (x ∷ xs) = refl

-- What is scanned from the row of an event is the event, unprocessed.
pub of_row-to_row :
    (id now : ℕ) (e : Event)
    → of_row (to_row id now e)
      ≡ record { id = id; event = e; created_at = now; processed_at = none }
unfolding of_row to_row
of_row-to_row id now e = simp json_round_trip

-- The times do not fall along the rows, from `lo` on.
abbrev pub Ordered : ℕ → List Row → Type 0
Ordered lo [] = Unit {0}
Ordered lo (r ∷ rs) = (lo ≤ r.created_at) × Ordered r.created_at rs

-- The numbers rise along the rows, from `lo` on.
abbrev pub Numbered : ℕ → List Row → Type 0
Numbered lo [] = Unit {0}
Numbered lo (r ∷ rs) = (lo ≤ r.id) × Numbered (suc r.id) rs

pub Ordered-mono : {lo hi : ℕ} (rs : List Row) → lo ≤ hi → Ordered hi rs → Ordered lo rs
Ordered-mono [] h o = tt
Ordered-mono (r ∷ rs) h o = (omega arith, o.1)

pub Numbered-mono : {lo hi : ℕ} (rs : List Row) → lo ≤ hi → Numbered hi rs → Numbered lo rs
Numbered-mono [] h o = tt
Numbered-mono (r ∷ rs) h o = (omega arith, o.1)

pub Ordered-keep :
    (p : Row → Bool) (lo : ℕ) (rs : List Row) → Ordered lo rs → Ordered lo (keep p rs)
Ordered-keep p lo [] o = tt
Ordered-keep p lo (r ∷ rs) o =
    let rest = Ordered-keep p r.created_at rs o.1 in
    ground (arith, rest, Ordered-mono {lo = lo} {hi = r.created_at} (keep p rs))

pub Numbered-keep :
    (p : Row → Bool) (lo : ℕ) (rs : List Row) → Numbered lo rs → Numbered lo (keep p rs)
Numbered-keep p lo [] o = tt
Numbered-keep p lo (r ∷ rs) o =
    let rest = Numbered-keep p (suc r.id) rs o.1 in
    ground (arith, rest, Numbered-mono {lo = lo} {hi = suc r.id} (keep p rs))

insert_row-first : (r : Row) (rs : List Row) → Ordered r.created_at rs → insert_row r rs ≡ r ∷ rs
unfolding insert_row
insert_row-first r [] o = refl
insert_row-first r (s ∷ rs) o = ground arith

-- Rows in the order of their times are left as they are by the sort.
pub order_rows-Ordered : (lo : ℕ) (rs : List Row) → Ordered lo rs → order_rows rs ≡ rs
unfolding order_rows
order_rows-Ordered lo [] o = refl
order_rows-Ordered lo (r ∷ rs) o =
    rw (order_rows-Ordered r.created_at rs o.1) (insert_row-first r rs o.1)

pub keep-append {ℓ} :
    {A : Type ℓ} (p : A → Bool) (xs ys : List A) → keep p (xs ++ ys) ≡ keep p xs ++ keep p ys
keep-append p [] ys = refl
keep-append p (x ∷ xs) ys = ground (arith, keep-append p xs ys)

abbrev pub event_of : Row → Event
event_of r = (of_row r).event

waiting-to_row :
    (source : String) (id now : ℕ) (e : Event)
    → is_waiting source (to_row id now e) ≡ str_eq e.id source
unfolding to_row
waiting-to_row source id now e = refl

-- Of the rows of a write those wait for a source whose event bears the source's name.
pub events-to_rows :
    (source : String) (id now : ℕ) (es : List Event)
    → map event_of (keep (is_waiting source) (to_rows id now es))
      ≡ keep (λ e. str_eq e.id source) es
unfolding to_rows
events-to_rows source id now [] = refl
events-to_rows source id now (e ∷ es) =
    let ih = events-to_rows source (suc id) now es in
    let same : event_of (to_row id now e) ≡ e =
      ap (λ (b : BufferedEvent). b.event) (of_row-to_row id now e) in
    rw (waiting-to_row source id now e) (elim (Bool-cases (str_eq e.id source)) [
      | inl yes_ ↦ rw yes_ (ap₂ ◌∷◌ same ih)
      | inr no_ ↦ rw no_ ih
    ])

-- A number that all the numbers of the rows are above is not among them.
not_elem :
    (i : ℕ) (rs : List Row) (n : ℕ)
    → Numbered (suc i) rs
    → elem i (map (λ r. r.id) (take n rs)) ≡ false
not_elem i rs zero o = refl
not_elem i [] (suc n) o = refl
not_elem i (r ∷ rs) (suc n) o =
    let ih = not_elem i rs n (Numbered-mono rs (omega arith) o.1) in ground arith

pub stamp_rows-nil : (now : ℕ) (rs : List Row) → stamp_rows now [] rs ≡ rs
unfolding stamp_rows
stamp_rows-nil now [] = refl
stamp_rows-nil now (r ∷ rs) = ap (◌∷◌ r) (stamp_rows-nil now rs)

-- A stamp with the number of no row is none.
stamp_rows-skip :
    (now i : ℕ) (ids : List ℕ) (rs : List Row)
    → Numbered (suc i) rs
    → stamp_rows now (i ∷ ids) rs ≡ stamp_rows now ids rs
unfolding stamp_rows
stamp_rows-skip now i ids [] o = refl
stamp_rows-skip now i ids (r ∷ rs) o =
    let ih = stamp_rows-skip now i ids rs (Numbered-mono rs (omega arith) o.1) in ground arith

-- Stamping the first `n` rows that pass a test, which fails at a stamped row, takes just those from
-- the rows that pass it.
module _ (p : Row → Bool) (now : ℕ)
    (stamped : (r : Row) → p (record r { processed_at = some now }) ≡ false) where
  pub keep-stamp_rows :
      (lo n : ℕ) (rs : List Row)
      → Numbered lo rs
      → keep p (stamp_rows now (map (λ r. r.id) (take n (keep p rs))) rs) ≡ drop n (keep p rs)
  unfolding stamp_rows
  keep-stamp_rows lo zero rs o = rw stamp_rows-nil
  keep-stamp_rows lo (suc n) [] o = refl
  keep-stamp_rows lo (suc n) (r ∷ rs) o =
      let rest = map (λ (s : Row). s.id) (take n (keep p rs)) in
      elim (Bool-cases (p r)) [
        | inl yes_ ↦
            let ih = keep-stamp_rows (suc r.id) n rs o.1 in
            ground (arith, ih, stamp_rows-skip now r.id rest rs o.1, stamped r)
        | inr no_ ↦
            let ih = keep-stamp_rows (suc r.id) (suc n) rs o.1 in
            ground
              (arith, ih, not_elem r.id (keep p rs) (suc n) (Numbered-keep p (suc r.id) rs o.1))
      ]
