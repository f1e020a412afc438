-- ===== src/DeadLetter/Postgres/Recovery.antt =====
-- An event that was written to the dead letters is read and converted back.
use Prim.Native.String.{String}
use text.Mathlib.Text.{◌==◌ as str_eq}
use text.Mathlib.TextEquality.{eq_iff}
use philotes.Common.{
  ℕ, zero, suc, ◌+◌, ◌≤◌, ◌<◌, ◌≡◌, refl, sym, ap, subst, ◌∙◌, ◌⊎◌, inl, inr, Bool, true, false,
  Option, none, some, List, [], ◌∷◌, ◌++◌, map, length, take, keep, ltb, Bool-cases, Option-cases,
  arith,
}
use philotes.Common.Errors.{GoError, ok}
use philotes.Cdc.{Event}
use philotes.DeadLetter.{ErrorType, FailedEvent, Json, from_cdc_event, to_event}
use philotes.DeadLetter.Postgres.{
  LetterRow, LetterTable, fault, past_fault, to_letter_row, of_letter_row, insert_row, order_rows,
  write, query_events, read_by_source,
}

module _ {A : Type 0} where
  -- Some element of a list has a property.
  abbrev pub Any : (A → Type 0) → List A → Type 0
  Any P [] = ⊥
  Any P (x ∷ xs) = P x ⊎ Any P xs

  take-all : (n : ℕ) (xs : List A) → length xs ≤ n → take n xs ≡ xs
  take-all zero [] h = refl
  take-all (suc n) [] h = refl
  take-all zero (x ∷ xs) h = absurd (omega (arith, h))
  take-all (suc n) (x ∷ xs) h = ap (λ ys. x ∷ ys) (take-all n xs (omega (arith, h)))

  Any-last : (P : A → Type 0) (xs : List A) (x : A) → P x → Any P (xs ++ (x ∷ []))
  Any-last P [] x p = inl p
  Any-last P (y ∷ ys) x p = inr (Any-last P ys x p)

  Any-keep :
      (P : A → Type 0) (p : A → Bool) (xs : List A)
      → Any (λ x. P x × (p x ≡ true)) xs
      → Any P (keep p xs)
  Any-keep P p [] h = elim h [ ]
  Any-keep P p (x ∷ xs) h = elim (Bool-cases (p x)) [
    | inl y ↦ rw (y) (elim h [ inl here ↦ inl here.0 | inr there ↦ inr (Any-keep P p xs there) ])
    | inr n ↦ rw (n) (elim h [
      | inl here ↦ absurd (ground (arith, n, here.1))
      | inr there ↦ Any-keep P p xs there
    ])
  ]

  length-keep_last :
      (p : A → Bool) (xs : List A) (x : A)
      → length (keep p (xs ++ (x ∷ []))) ≤ length (keep p xs) + 1
  length-keep_last p [] x = elim (Bool-cases (p x)) [
    | inl y ↦ rw (y) (omega arith)
    | inr y ↦ rw (y) (omega arith)
  ]
  length-keep_last p (y ∷ ys) x = elim (Bool-cases (p y)) [
    | inl e ↦ rw (e) (omega (arith, length-keep_last p ys x))
    | inr e ↦ rw (e) (length-keep_last p ys x)
  ]

Any-map :
    {A B : Type 0} (P : B → Type 0) (f : A → B) (xs : List A)
    → Any (λ x. P (f x)) xs
    → Any P (map f xs)
Any-map P f [] h = elim h [ ]
Any-map P f (x ∷ xs) (inl h) = inl h
Any-map P f (x ∷ xs) (inr h) = inr (Any-map P f xs h)

Any-insert :
    (P : LetterRow → Type 0) (r : LetterRow) (rs : List LetterRow)
    → P r ⊎ Any P rs
    → Any P (insert_row r rs)
unfolding insert_row
Any-insert P r [] (inl h) = inl h
Any-insert P r [] (inr h) = elim h [ ]
Any-insert P r (s ∷ ss) h = elim (Bool-cases (ltb s.created_at r.created_at)) [
  | inl y ↦ rw (y) (elim h [
    | inl a ↦ inr (Any-insert P r ss (inl a))
    | inr (inl a) ↦ inl a
    | inr (inr a) ↦ inr (Any-insert P r ss (inr a))
  ])
  | inr y ↦ rw (y) h
]

Any-order : (P : LetterRow → Type 0) (rs : List LetterRow) → Any P rs → Any P (order_rows rs)
unfolding order_rows
Any-order P [] h = elim h [ ]
Any-order P (r ∷ rs) (inl h) = Any-insert P r (order_rows rs) (inl h)
Any-order P (r ∷ rs) (inr h) = Any-insert P r (order_rows rs) (inr (Any-order P rs h))

length-insert : (r : LetterRow) (rs : List LetterRow) → length (insert_row r rs) ≡ suc (length rs)
unfolding insert_row
length-insert r [] = refl
length-insert r (s ∷ ss) = elim (Bool-cases (ltb s.created_at r.created_at)) [
  | inl y ↦ rw (y) (ap suc (length-insert r ss))
  | inr y ↦ rw (y) refl
]

length-order : (rs : List LetterRow) → length (order_rows rs) ≡ length rs
unfolding order_rows
length-order [] = refl
length-order (r ∷ rs) = length-insert r (order_rows rs) ∙ ap suc (length-order rs)

-- What a query finds, if it does not fail and its limit is wide enough.
query-Any :
    (P : FailedEvent → Type 0) (p : LetterRow → Bool) (limit : ℕ) (db : LetterTable)
    → fault db ≡ none
    → length (keep p db.rows) ≤ limit
    → Any (λ r. P (of_letter_row r) × (p r ≡ true)) db.rows
    → (es : List FailedEvent) × ((query_events p limit db).1 ≡ ok es) × Any P es
unfolding query_events
query-Any P p limit db x h a =
    let rows = order_rows (keep p db.rows) in
    let all : take limit rows ≡ rows =
      take-all limit rows (omega (arith, h, length-order (keep p db.rows))) in
    (
      map of_letter_row (take limit rows),
      rw (x, query_events) refl,
      subst (λ rs. Any P (map of_letter_row rs)) (sym all)
          (Any-map P of_letter_row rows (
            Any-order (λ r. P (of_letter_row r)) (keep p db.rows)
              (Any-keep (λ r. P (of_letter_row r)) p db.rows a))),
    )

write-rows :
    (e : FailedEvent) (db : LetterTable)
    → fault db ≡ none
    → (write e db).0.rows ≡ db.rows ++ (to_letter_row db.jsonb db.next_id e ∷ [])
unfolding write
write-rows e db x = rw (x, write) refl

abbrev source_or : String → Option FailedEvent → String
source_or s none = s
source_or s (some l) = l.source_id

abbrev data_of : Option FailedEvent → Option String
data_of none = none
data_of (some l) = some l.event_data

letter-source :
    (json : Json) (e : Event) (x : GoError) (ty : ErrorType) (retention now : ℕ)
    (letter : FailedEvent)
    → from_cdc_event json e x ty retention now ≡ some letter
    → (letter.source_id ≡ e.id) × (json.marshal e ≡ some letter.event_data)
unfolding from_cdc_event
letter-source json e x ty retention now letter h = elim (Option-cases (json.marshal e)) [
  | inl m ↦ absurd (ground (arith, m, h))
  | inr (text, m) ↦
      let from = from_cdc_event json e x ty retention now in
      let source : source_or e.id from ≡ e.id = rw (m, from_cdc_event) refl in
      let data_ : data_of from ≡ some text = rw (m, from_cdc_event) refl in
      (sym (ap (λ o. source_or e.id o) h) ∙ source, m ∙ sym data_ ∙ ap data_of h)
]

keep-other :
    (source : String) (rows : List LetterRow) (row : LetterRow)
    → str_eq row.source_id source ≡ false
    → keep (λ r. str_eq r.source_id source) (rows ++ (row ∷ []))
      ≡ keep (λ r. str_eq r.source_id source) rows
keep-other source [] row h = rw h refl
keep-other source (r ∷ rows) row h = elim (Bool-cases (str_eq r.source_id source)) [
  | inl e ↦ rw e (ap (λ rs. r ∷ rs) (keep-other source rows row h))
  | inr e ↦ rw e (keep-other source rows row h)
]

-- What a query returns depends on the fault and on the rows that it is about.
query_events-same :
    (p : LetterRow → Bool) (limit : ℕ) (a b : LetterTable)
    → fault a ≡ fault b
    → keep p a.rows ≡ keep p b.rows
    → (query_events p limit a).1 ≡ (query_events p limit b).1
unfolding query_events
query_events-same p limit a b f k = elim (Option-cases (fault b)) [
  | inl x ↦ rw (f ∙ x, x, query_events, k) refl
  | inr (e, x) ↦ rw (f ∙ x, x, query_events) refl
]

-- A read of another source does not see what is written.
read_by_source-other :
    (source : String) (limit : ℕ) (letter : FailedEvent) (db : LetterTable)
    → fault db ≡ none
    → str_eq letter.source_id source ≡ false
    → (read_by_source source limit (write letter db).0).1
      ≡ (read_by_source source limit (past_fault db)).1
unfolding write
read_by_source-other source limit letter db f1 h =
    query_events-same (λ r. str_eq r.source_id source) limit (write letter db).0 (past_fault db)
      (rw (f1, write) refl)
      (rw (f1, write) (keep-other source db.rows (to_letter_row db.jsonb db.next_id letter) h))

-- A letter that was converted from an event and written is found by a read of the event's own ID, which
-- the conversion puts in place of a source, if the statements do not fail and the limit is above the
-- number of the letters with that ID; and what is found is converted back to the event, if the JSON that
-- PostgreSQL gives back of the event's still reads as the event. A read of any other name, such as that of
-- the source that the event came from, gives what it gave before.
pub read_by_source-recovers :
    (json : Json) (e : Event) (x : GoError) (ty : ErrorType) (retention now limit : ℕ)
    (letter : FailedEvent) (db : LetterTable)
    → ((text : String) → json.marshal e ≡ some text → json.unmarshal (db.jsonb text) ≡ some e)
    → from_cdc_event json e x ty retention now ≡ some letter
    → fault db ≡ none
    → fault (write letter db).0 ≡ none
    → length (keep (λ r. str_eq r.source_id e.id) db.rows) < limit
    → ((es : List FailedEvent) × ((read_by_source e.id limit (write letter db).0).1 ≡ ok es)
        × Any (λ f. to_event json f ≡ some e) es)
      × ((source : String)
          → str_eq e.id source ≡ false
          → (read_by_source source limit (write letter db).0).1
            ≡ (read_by_source source limit (past_fault db)).1)
unfolding to_event
read_by_source-recovers json e x ty retention now limit letter db law h f1 f2 wide =
    let (source, text) = letter-source json e x ty retention now letter h in
    let p : LetterRow → Bool = λ r. str_eq r.source_id e.id in
    let row = to_letter_row db.jsonb db.next_id letter in
    let rows = write-rows letter db f1 in
    (
      query-Any (λ f. to_event json f ≡ some e) p limit (write letter db).0 f2
          (rw (rows) (omega (arith, wide, length-keep_last p db.rows row)))
          (rw (rows) (
            Any-last (λ r. (to_event json (of_letter_row r) ≡ some e) × (p r ≡ true)) db.rows row
              (law letter.event_data text, (eq_iff letter.source_id e.id).1 source))),
      λ name other. read_by_source-other name limit letter db f1 (rw source other),
    )
