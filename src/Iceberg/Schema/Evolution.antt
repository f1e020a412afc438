-- ===== src/Iceberg/Schema/Evolution.antt =====
-- internal/iceberg/schema/schema.go: the IDs and the fields of a schema that is built and then merged with
-- others.
use Prim.Native.String.{String}
use text.Mathlib.Text.{◌==◌ as str_eq}
use text.Mathlib.TextEquality.{eq_iff}
use philotes.Common.{
  ℕ, suc, ◌+◌, ◌≤◌, true, ◌||◌, List, [], ◌∷◌, ◌++◌, ◌≡◌, refl, sym, subst, ap, ◌∙◌, All, map,
  arith, length, is_some, Bool-cases, inl, inr,
}
use mathlib.Core.List.{append-nil, append_assoc}
use philotes.Cdc.{Event, Value}
use philotes.Iceberg.{Field, IcebergSchema, GoKind, cdc_system_columns}
use philotes.Iceberg.Schema.Names.{has, appears, has-++, build_from_events-has}
use philotes.Iceberg.Schema.{
  user_field, sort_columns, add_events, number_fields, build_schema, build_from_events, find_field,
  added_fields, merge_schemas,
}
use philotes.Iceberg.Schema.Added.{IsNew, IsNew-later, IsNew-both, added_fields-IsNew}

-- The IDs increase from `lo` on and stay below `hi`.
unfoldable pub Rising : ℕ → List Field → ℕ → Type 0
Rising lo [] hi = lo ≤ hi
Rising lo (f ∷ fs) hi = (lo ≤ f.id) × Rising (suc f.id) fs hi

-- Each field of the first list has its name in the second.
unfoldable pub Covers : List Field → List Field → Type 0
Covers [] gs = Unit
Covers (f ∷ fs) gs = (has f.name gs ≡ true) × Covers fs gs

Rising-lower : (lo mid hi : ℕ) (fs : List Field) → lo ≤ mid → Rising mid fs hi → Rising lo fs hi
unfolding Rising
Rising-lower lo mid hi [] h k = ground (arith, h, k)
Rising-lower lo mid hi (f ∷ fs) h k = (ground (arith, h, k.0), k.1)

Rising-end : (lo hi : ℕ) (fs : List Field) → Rising lo fs hi → lo ≤ hi
unfolding Rising
Rising-end lo hi [] h = h
Rising-end lo hi (f ∷ fs) h = ground (arith, h.0, Rising-end (suc f.id) hi fs h.1)

Rising-++ :
    (lo mid hi : ℕ) (fs gs : List Field)
    → Rising lo fs mid
    → Rising mid gs hi
    → Rising lo (fs ++ gs) hi
unfolding Rising
Rising-++ lo mid hi [] gs h k = Rising-lower lo mid hi gs h k
Rising-++ lo mid hi (f ∷ fs) gs h k = (h.0, Rising-++ (suc f.id) mid hi fs gs h.1 k)

number_fields-Rising :
    (next : ℕ) (fs : List Field) → Rising next (number_fields next fs) (next + length fs)
unfolding Rising number_fields
number_fields-Rising next [] = omega arith
number_fields-Rising next (f ∷ fs) = (
  omega arith,
  subst (λ n. Rising (suc next) (number_fields (suc next) fs) n) (omega arith)
      (number_fields-Rising (suc next) fs),
)

added_fields-Rising :
    (existing fs : List Field) (next : ℕ)
    → Rising next (added_fields existing fs next).0 (added_fields existing fs next).1
unfolding Rising added_fields
added_fields-Rising existing [] next = omega arith
added_fields-Rising existing (f ∷ fs) next =
    elim (Bool-cases (is_some (find_field f.name existing))) [
      | inl known ↦ rw known (added_fields-Rising existing fs next)
      | inr fresh ↦ rw fresh (omega arith, added_fields-Rising existing fs (suc next))
    ]

has-prefix : (name : String) (fs gs : List Field) → has name fs ≡ true → has name (fs ++ gs) ≡ true
has-prefix name fs gs h = rw (has-++ name fs gs, h) refl

-- A field that is put between two lists hides no name.
has-insert :
    (name : String) (f : Field) (fs gs : List Field)
    → has name (fs ++ gs) ≡ true
    → has name (fs ++ (f ∷ gs)) ≡ true
unfolding has find_field
has-insert name f [] gs h = ground (arith, h)
has-insert name f (g ∷ fs) gs h = elim (Bool-cases (str_eq g.name name)) [
  | inl here ↦ ground (arith, here)
  | inr there ↦ ground (arith, there, h, has-insert name f fs gs)
]

has-here :
    (f : Field) (name : String) (fs gs : List Field)
    → f.name ≡ name
    → has name (fs ++ (f ∷ gs)) ≡ true
unfolding has find_field
has-here f name [] gs e = ground (arith, (eq_iff f.name name).1 e)
has-here f name (g ∷ fs) gs e = ground (arith, has-here f name fs gs e)

Covers-prefix : (new fs gs : List Field) → Covers new fs → Covers new (fs ++ gs)
unfolding Covers
Covers-prefix [] fs gs h = tt
Covers-prefix (f ∷ new) fs gs h = (has-prefix f.name fs gs h.0, Covers-prefix new fs gs h.1)

Covers-insert :
    (new : List Field) (f : Field) (fs gs : List Field)
    → Covers new (fs ++ gs)
    → Covers new (fs ++ (f ∷ gs))
unfolding Covers
Covers-insert [] f fs gs h = tt
Covers-insert (g ∷ new) f fs gs h = (has-insert g.name f fs gs h.0, Covers-insert new f fs gs h.1)

added_fields-Covers :
    (existing fs : List Field) (next : ℕ)
    → Covers fs (existing ++ (added_fields existing fs next).0)
unfolding Covers added_fields has
added_fields-Covers existing [] next = tt
added_fields-Covers existing (f ∷ fs) next =
    elim (Bool-cases (is_some (find_field f.name existing))) [
      | inl known ↦ rw known (
        has-prefix f.name existing (added_fields existing fs next).0 known,
        added_fields-Covers existing fs next,
      )
      | inr fresh ↦ rw fresh (
        has-here (record f { id = next }) f.name existing (added_fields existing fs (suc next)).0
            refl,
        Covers-insert fs (record f { id = next }) existing (added_fields existing fs (suc next)).0
            (added_fields-Covers existing fs (suc next)),
      )
    ]

-- The schemas are merged in their order, each from the next ID on that the merge before it gives.
unfoldable pub merge_all : List IcebergSchema → IcebergSchema × ℕ → IcebergSchema × ℕ
unfolding merge_schemas
merge_all [] p = p
merge_all (s ∷ ss) p = merge_all ss (merge_schemas p.0 s p.1)

abbrev pub Evolved : ℕ → List IcebergSchema → IcebergSchema × ℕ → IcebergSchema × ℕ → Type 0
Evolved lo ss p q =
    Rising lo q.0.fields q.1
    × ((added : List Field) × (q.0.fields ≡ p.0.fields ++ added) × All (IsNew p.0.fields ss) added)
    × (q.0.schema_id ≡ p.0.schema_id + length ss)
    × All (λ s. Covers s.fields q.0.fields) ss

merge_schemas-Evolved :
    (lo : ℕ) (s : IcebergSchema) (p : IcebergSchema × ℕ)
    → Rising lo p.0.fields p.1
    → Evolved lo (s ∷ []) p (merge_schemas p.0 s p.1)
unfolding merge_schemas
merge_schemas-Evolved lo s (old, next) h = (
  Rising-++ lo next (added_fields old.fields s.fields next).1 old.fields
      (added_fields old.fields s.fields next).0 h (added_fields-Rising old.fields s.fields next),
  (
    (added_fields old.fields s.fields next).0,
    refl,
    added_fields-IsNew s.schema_id old.fields s.fields next,
  ),
  refl,
  (added_fields-Covers old.fields s.fields next, tt),
)

Evolved-step :
    (lo : ℕ) (s : IcebergSchema) (ss : List IcebergSchema) (p q r : IcebergSchema × ℕ)
    → Evolved lo (s ∷ []) p q
    → Evolved lo ss q r
    → Evolved lo (s ∷ ss) p r
Evolved-step lo s ss p q r (_, (added, e, new), n, (covers, _))
      (rising, (more, e', newer), n', all) =
    (
      rising,
      (
        added ++ more,
        e' ∙ ap (λ fs. fs ++ more) e ∙ append_assoc p.0.fields added more,
        IsNew-both p.0.fields s ss added more new
            (IsNew-later p.0.fields s ss added more (subst (λ fs. All (IsNew fs ss) more) e newer)),
      ),
      omega arith,
      (
        subst (λ fs. Covers s.fields fs) (sym e') (Covers-prefix s.fields q.0.fields more covers),
        all,
      ),
    )

merge_all-Evolved :
    (lo : ℕ) (ss : List IcebergSchema) (p : IcebergSchema × ℕ)
    → Rising lo p.0.fields p.1
    → Evolved lo ss p (merge_all ss p)
unfolding merge_all
merge_all-Evolved lo [] p h = (h, ([], sym (append-nil p.0.fields), tt), omega arith, tt)
merge_all-Evolved lo (s ∷ ss) p h =
    let step = merge_schemas-Evolved lo s p h in
    Evolved-step lo s ss p (merge_schemas p.0 s p.1) (merge_all ss (merge_schemas p.0 s p.1)) step
      (merge_all-Evolved lo ss (merge_schemas p.0 s p.1) step.0)

-- A schema that is built from events has a field of each column that some event has behind or before its
-- change, the CDC columns, and no other names. Merged then with other schemas, in any number, the IDs of
-- its fields increase, so that none is given twice, and stay below the next ID; the fields that it was
-- built with stay first and unchanged; behind them come only fields of the merged schemas whose names are
-- not among those; each field of each merged schema has its name in it; and its ID counts the merges.
pub build_from_events-evolves :
    (kind_of : Value → GoKind) (es : List Event) (next : ℕ) (ss : List IcebergSchema)
    → let built = build_from_events kind_of es next in
      ((name : String) → has name built.0.fields ≡ (appears name es || has name cdc_system_columns))
      × Evolved next ss built (merge_all ss built)
      × (built.0.schema_id ≡ 0)
unfolding build_from_events build_schema
build_from_events-evolves kind_of es next ss = (
  build_from_events-has kind_of es next,
  merge_all-Evolved next ss (build_from_events kind_of es next) (
      number_fields-Rising next
        (map user_field (sort_columns (add_events kind_of es [])) ++ cdc_system_columns)),
  refl,
)
