-- ===== src/Iceberg/Schema/Added.antt =====
-- internal/iceberg/schema/schema.go: the fields that a merge adds.
use Prim.Native.String.{String}
use text.Mathlib.TextEquality.{eq_iff}
use philotes.Common.{
  ℕ, suc, Bool, true, false, ◌||◌, List, [], ◌∷◌, ◌++◌, ◌≡◌, refl, All, arith, is_some, Bool-cases,
  inl, inr,
}
use philotes.Iceberg.{Field, IcebergSchema}
use philotes.Iceberg.Schema.Names.{has, has-++}
use philotes.Iceberg.Schema.{find_field, added_fields}

-- Some of the schemas has a field of the name.
abbrev pub offers : String → List IcebergSchema → Bool
offers name [] = false
offers name (s ∷ ss) = has name s.fields || offers name ss

-- A field whose name is not among the first fields, and is among what the schemas offer.
abbrev pub IsNew : List Field → List IcebergSchema → Field → Type 0
IsNew old ss f = (has f.name old ≡ false) × (offers f.name ss ≡ true)

pub IsNew-later :
    (old : List Field) (s : IcebergSchema) (ss : List IcebergSchema) (added more : List Field)
    → All (IsNew (old ++ added) ss) more
    → All (IsNew old (s ∷ ss)) more
IsNew-later old s ss added [] h = tt
IsNew-later old s ss added (f ∷ more) h =
    let both = has-++ f.name old added in
    let (fresh, offered) = h.0 in
    ((ground arith, ground arith), IsNew-later old s ss added more h.1)

pub IsNew-both :
    (old : List Field) (s : IcebergSchema) (ss : List IcebergSchema) (added more : List Field)
    → All (IsNew old (s ∷ [])) added
    → All (IsNew old (s ∷ ss)) more
    → All (IsNew old (s ∷ ss)) (added ++ more)
IsNew-both old s ss [] more h k = k
IsNew-both old s ss (f ∷ added) more h k =
    let (fresh, offered) = h.0 in ((fresh, ground arith), IsNew-both old s ss added more h.1 k)

-- What one field more in a schema makes of the fields that are new.
IsNew-wider :
    (old : List Field) (id : ℕ) (f : Field) (fs added : List Field)
    → All (IsNew old (record { schema_id = id; fields = fs } ∷ [])) added
    → All (IsNew old (record { schema_id = id; fields = f ∷ fs } ∷ [])) added
unfolding has find_field
IsNew-wider old id f fs [] h = tt
IsNew-wider old id f fs (g ∷ added) h =
    let (fresh, offered) = h.0 in ((fresh, ground arith), IsNew-wider old id f fs added h.1)

pub added_fields-IsNew :
    (id : ℕ) (existing fs : List Field) (next : ℕ)
    → All
        (IsNew existing (record { schema_id = id; fields = fs } ∷ []))
        (added_fields existing fs next).0
unfolding added_fields has find_field
added_fields-IsNew id existing [] next = tt
added_fields-IsNew id existing (f ∷ fs) next =
    elim (Bool-cases (is_some (find_field f.name existing))) [
      | inl known ↦
          rw known (IsNew-wider existing id f fs _ (added_fields-IsNew id existing fs next))
      | inr fresh ↦ rw fresh (
        (fresh, ground (arith, (eq_iff f.name f.name).1 refl)),
        IsNew-wider existing id f fs _ (added_fields-IsNew id existing fs (suc next)),
      )
    ]
