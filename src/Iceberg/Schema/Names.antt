-- ===== src/Iceberg/Schema/Names.antt =====
-- internal/iceberg/schema/schema.go: which names the fields of a built schema have.
use Prim.Native.String.{String}
use text.Mathlib.Text.{◌==◌ as str_eq}
use text.Mathlib.TextEquality.{eq_iff}
use philotes.Common.{
  ℕ, suc, Bool, false, ◌||◌, List, [], ◌∷◌, ◌++◌, ◌≡◌, refl, sym, ap, ◌∙◌, map, is_some, some,
  arith, Bool-cases, Option-cases, inl, inr,
}
use philotes.Common.Maps.{lookup, put, lookup-put}
use philotes.Cdc.{Event, Value, Columns}
use philotes.Iceberg.{Field, IcebergType, string, GoKind, infer_type_from_value, cdc_system_columns}
use philotes.Iceberg.Schema.{
  TypeMap, same_type, merge_type, add_missing, add_after, add_before, add_events, insert_column,
  sort_columns, user_field, number_fields, build_schema, build_from_events, find_field,
}

unfoldable pub has : String → List Field → Bool
unfolding find_field
has name fs = is_some (find_field name fs)

abbrev pub knows : {A : Type 0} → String → List (String × A) → Bool
knows name m = is_some (lookup name m)

-- Some event has the column, behind or before its change.
abbrev pub appears : String → List Event → Bool
appears name [] = false
appears name (e ∷ es) = knows name e.after || knows name e.before || appears name es

put-knows :
    (name n : String) (t : IcebergType) (m : TypeMap)
    → knows name (put n t m) ≡ (str_eq n name || knows name m)
put-knows name n t m = ground (arith, lookup-put n name t m)

-- A name that is there adds none.
same-knows :
    (name n : String) (old : IcebergType) (m : TypeMap)
    → lookup n m ≡ some old
    → knows name m ≡ (str_eq n name || knows name m)
same-knows name n old m e = elim (Bool-cases (str_eq n name)) [
  | inr other ↦ rw other refl
  | inl same ↦ rw (same) (rw (sym ((eq_iff n name).0 same), e) refl)
]

merge_type-knows :
    (name n : String) (t : IcebergType) (m : TypeMap)
    → knows name (merge_type n t m) ≡ (str_eq n name || knows name m)
unfolding merge_type
merge_type-knows name n t m = elim (Option-cases (lookup n m)) [
  | inl e ↦ rw (e, merge_type) (put-knows name n t m)
  | inr (old, e) ↦ elim (Bool-cases (same_type old t)) [
    | inl s ↦ rw (e, s, merge_type) (same-knows name n old m e)
    | inr s ↦ rw (e, s, merge_type) (put-knows name n string m)
  ]
]

add_missing-knows :
    (name n : String) (t : IcebergType) (m : TypeMap)
    → knows name (add_missing n t m) ≡ (str_eq n name || knows name m)
unfolding add_missing
add_missing-knows name n t m = elim (Option-cases (lookup n m)) [
  | inl e ↦ rw (e, add_missing) (put-knows name n t m)
  | inr (old, e) ↦ rw (e, add_missing) (same-knows name n old m e)
]

add_after-knows :
    (kind_of : Value → GoKind) (name : String) (cs : Columns) (m : TypeMap)
    → knows name (add_after kind_of cs m) ≡ (knows name cs || knows name m)
unfolding add_after lookup
add_after-knows kind_of name [] m = refl
add_after-knows kind_of name ((n, v) ∷ cs) m =
    let t = infer_type_from_value (kind_of v) in
    let ih = add_after-knows kind_of name cs (merge_type n t m) in
    let one = merge_type-knows name n t m in ground (arith, ih, one)

insert_column-knows :
    (name : String) (c : String × IcebergType) (m : TypeMap)
    → knows name (insert_column c m) ≡ (str_eq c.0 name || knows name m)
unfolding insert_column lookup
insert_column-knows name c [] = ground arith
insert_column-knows name c (d ∷ ds) = ground (arith, insert_column-knows name c ds)

add_before-knows :
    (kind_of : Value → GoKind) (name : String) (cs : Columns) (m : TypeMap)
    → knows name (add_before kind_of cs m) ≡ (knows name cs || knows name m)
unfolding add_before lookup
add_before-knows kind_of name [] m = refl
add_before-knows kind_of name ((n, v) ∷ cs) m =
    let t = infer_type_from_value (kind_of v) in
    let ih = add_before-knows kind_of name cs (add_missing n t m) in
    let one = add_missing-knows name n t m in ground (arith, ih, one)

add_events-knows :
    (kind_of : Value → GoKind) (name : String) (es : List Event) (m : TypeMap)
    → knows name (add_events kind_of es m) ≡ (appears name es || knows name m)
unfolding add_events
add_events-knows kind_of name [] m = refl
add_events-knows kind_of name (e ∷ es) m =
    let behind = add_after kind_of e.after m in
    let ih = add_events-knows kind_of name es (add_before kind_of e.before behind) in
    let one = add_after-knows kind_of name e.after m in
    let two = add_before-knows kind_of name e.before behind in ground (arith, ih, one, two)

sort_columns-knows : (name : String) (m : TypeMap) → knows name (sort_columns m) ≡ knows name m
unfolding sort_columns lookup
sort_columns-knows name [] = refl
sort_columns-knows name (c ∷ cs) =
    let ih = sort_columns-knows name cs in
    ground (arith, ih, insert_column-knows name c (sort_columns cs))

user_fields-knows : (name : String) (m : TypeMap) → has name (map user_field m) ≡ knows name m
unfolding has find_field lookup
user_fields-knows name [] = refl
user_fields-knows name ((n, t) ∷ m) = ground (arith, user_fields-knows name m)

number_fields-has :
    (name : String) (next : ℕ) (fs : List Field) → has name (number_fields next fs) ≡ has name fs
unfolding has find_field number_fields
number_fields-has name next [] = refl
number_fields-has name next (f ∷ fs) = ground (arith, number_fields-has name (suc next) fs)

pub has-++ :
    (name : String) (fs gs : List Field) → has name (fs ++ gs) ≡ (has name fs || has name gs)
unfolding has find_field
has-++ name [] gs = refl
has-++ name (f ∷ fs) gs = ground (arith, has-++ name fs gs)

or-false : (b : Bool) → (b || false) ≡ b
or-false b = elim (Bool-cases b) [ inl e ↦ rw e refl | inr e ↦ rw e refl ]

-- The names of a built schema are the columns of the events and those of the CDC columns.
pub build_from_events-has :
    (kind_of : Value → GoKind) (es : List Event) (next : ℕ) (name : String)
    → has name (build_from_events kind_of es next).0.fields
      ≡ (appears name es || has name cdc_system_columns)
unfolding build_from_events build_schema
build_from_events-has kind_of es next name =
    let m = add_events kind_of es [] in
    let fs = map user_field (sort_columns m) in
    number_fields-has name next (fs ++ cdc_system_columns)
    ∙ has-++ name fs cdc_system_columns
    ∙ ap (λ b. b || has name cdc_system_columns)
        (user_fields-knows name (sort_columns m)
          ∙ sort_columns-knows name m
          ∙ add_events-knows kind_of name es []
          ∙ unfold lookup in or-false (appears name es))
