-- ===== src/Buffer/Postgres/Queue.antt =====
-- The table as a queue of events for each source.
use Prim.Native.String.{String}
use text.Mathlib.Text.{◌==◌ as str_eq}
use mathlib.Core.List.{map-append, append-nil}
use philotes.Common.{
  ℕ, zero, suc, ◌-◌, ◌≤◌, ◌<◌, ◌≡◌, refl, sym, ap, ◌∙◌, ◌⊎◌, inl, inr, not, none, some, List, [],
  ◌∷◌, ◌++◌, map, take, drop, keep, All, Option-cases, arith,
}
use philotes.Common.Errors.{GoError, wrapped, ok, err}
use philotes.Cdc.{Event}
use philotes.Buffer.{BufferedEvent}
use philotes.Buffer.Postgres.{Row, Db, of_row, to_rows, is_waiting, is_expired, stamp_rows}
use philotes.Buffer.Postgres.Statements.{
  fault, write, read_batch, mark_processed, cleanup, write_failed, query_failed, mark_failed,
}
use philotes.Buffer.Postgres.Rows.{
  Ordered, Numbered, Ordered-keep, order_rows-Ordered, keep-append, event_of, events-to_rows,
  keep-stamp_rows, stamp_rows-nil,
}

-- The events that wait for a source, in the order of the table.
abbrev pub pending : String → Db → List Event
pending source db = map event_of (keep (is_waiting source) db.rows)

-- The table as its statements leave it: the times do not fall, the numbers rise, and both are bounded
-- by the clock and the sequence.
pub record IsTable (db : Db) : Type 0 where
  pub ordered : Ordered 0 db.rows
  pub numbered : Numbered 0 db.rows
  pub past : All (λ r. r.created_at ≤ db.now) db.rows
  pub below : All (λ r. r.id < db.next_id) db.rows

take-map {ℓ κ} :
    {A : Type ℓ} {B : Type κ} (f : A → B) (n : ℕ) (xs : List A)
    → take n (map f xs) ≡ map f (take n xs)
take-map f zero xs = refl
take-map f (suc n) [] = refl
take-map f (suc n) (x ∷ xs) = ap (◌∷◌ (f x)) (take-map f n xs)

drop-map {ℓ κ} :
    {A : Type ℓ} {B : Type κ} (f : A → B) (n : ℕ) (xs : List A)
    → drop n (map f xs) ≡ map f (drop n xs)
drop-map f zero xs = refl
drop-map f (suc n) [] = refl
drop-map f (suc n) (x ∷ xs) = drop-map f n xs

map-map {ℓ κ μ} :
    {A : Type ℓ} {B : Type κ} {C : Type μ} (g : B → C) (f : A → B) (xs : List A)
    → map g (map f xs) ≡ map (λ x. g (f x)) xs
map-map g f [] = refl
map-map g f (x ∷ xs) = ap (◌∷◌ (g (f x))) (map-map g f xs)

-- A write that does not fail puts the events that bear the name of a source, in their order and as they
-- are, at the end of that source's queue; the others never come to it. One that fails changes no queue.
pub pending-write :
    (source : String) (es : List Event) (db : Db)
    → let (db', r) = write es db in
      ((r ≡ none) × (pending source db' ≡ pending source db ++ keep (λ e. str_eq e.id source) es))
      ⊎ ((x : GoError) × (r ≡ some x) × (pending source db' ≡ pending source db))
unfolding write
pending-write source [] db = inl (refl, sym (append-nil (pending source db)))
pending-write source (e ∷ es) db = elim (Option-cases (fault db)) [
  | inr (x, f) ↦ inr (wrapped write_failed x, rw (f, write), rw (f, write))
  | inl f ↦ inl (
    rw (f, write),
    rw (f, write)
        (ap (map event_of)
            (keep-append (is_waiting source) db.rows (to_rows db.next_id db.now (e ∷ es)))
          ∙ map-append event_of (keep (is_waiting source) db.rows)
              (keep (is_waiting source) (to_rows db.next_id db.now (e ∷ es)))
          ∙ ap (◌++◌ (pending source db)) (events-to_rows source db.next_id db.now (e ∷ es))),
  )
]

-- On a well-formed table a read that does not fail gives the first `limit` events of the source's
-- queue, in order, and leaves the rows; one that fails gives an error and leaves them too.
pub read_batch-pending :
    (source : String) (limit : ℕ) (db : Db)
    → IsTable db
    → let (db', r) = read_batch source limit db in
      (db'.rows ≡ db.rows)
      × (((bs : List BufferedEvent) × (r ≡ ok bs)
            × (map (λ b. b.event) bs ≡ take limit (pending source db)))
          ⊎ ((x : GoError) × (r ≡ err x)))
unfolding read_batch
read_batch-pending source limit db t = elim (Option-cases (fault db)) [
  | inr (x, f) ↦ (rw (f, read_batch), inr (wrapped query_failed x, rw (f, read_batch)))
  | inl f ↦
      let waiting = keep (is_waiting source) db.rows in
      let sorted =
        order_rows-Ordered 0 waiting (Ordered-keep (is_waiting source) 0 db.rows t.ordered) in
      (
        rw (f, read_batch),
        inl (
          map of_row (take limit waiting),
          rw (f, read_batch) (ap (λ (rs : List Row). ok (map of_row (take limit rs))) sorted),
          map-map (λ b. b.event) of_row (take limit waiting)
              ∙ sym (take-map event_of limit waiting),
        ),
      )
]

read_batch-ids :
    (source : String) (limit : ℕ) (db db' : Db) (bs : List BufferedEvent)
    → IsTable db
    → read_batch source limit db ≡ (db', ok bs)
    → (db'.rows ≡ db.rows)
      × (map (λ b. b.id) bs ≡ map (λ r. r.id) (take limit (keep (is_waiting source) db.rows)))
unfolding read_batch
read_batch-ids source limit db db' bs t read = elim (Option-cases (fault db)) [
  | inr (x, f) ↦ ground (arith, f)
  | inl f ↦
      let waiting = keep (is_waiting source) db.rows in
      let sorted =
        order_rows-Ordered 0 waiting (Ordered-keep (is_waiting source) 0 db.rows t.ordered) in
      let same : map of_row (take limit waiting) ≡ bs = ground (arith, f, sorted) in
      (
        ground (arith, f),
        ap (map (λ (b : BufferedEvent). b.id)) (sym same)
            ∙ map-map (λ b. b.id) of_row (take limit waiting)
            ∙ unfold of_row in refl,
      )
]

mark_processed-rows :
    (ids : List ℕ) (db : Db)
    → let (db', r) = mark_processed ids db in
      ((r ≡ none) × (db'.rows ≡ stamp_rows db.now ids db.rows) × (db'.now ≡ db.now))
      ⊎ ((x : GoError) × (r ≡ some x) × (db'.rows ≡ db.rows))
unfolding mark_processed
mark_processed-rows [] db = inl (refl, sym (stamp_rows-nil db.now db.rows), refl)
mark_processed-rows (i ∷ ids) db = elim (Option-cases (fault db)) [
  | inr (x, f) ↦ inr (wrapped mark_failed x, rw (f, mark_processed), rw (f, mark_processed))
  | inl f ↦ inl (rw (f, mark_processed), rw (f, mark_processed), rw (f, mark_processed))
]

-- On a well-formed table, marking the events of a batch by the numbers that they were read with takes
-- just that batch from the front of the source's queue, unless the statement fails, which leaves the
-- queue.
pub pending-mark_batch :
    (source : String) (limit : ℕ) (db db' : Db) (bs : List BufferedEvent)
    → IsTable db
    → read_batch source limit db ≡ (db', ok bs)
    → let (db'', r) = mark_processed (map (λ b. b.id) bs) db' in
      ((r ≡ none) × (pending source db'' ≡ drop limit (pending source db)))
      ⊎ ((x : GoError) × (r ≡ some x) × (pending source db'' ≡ pending source db))
pending-mark_batch source limit db db' bs t read =
    let (rows_are, ids) = read_batch-ids source limit db db' bs t read in
    elim (mark_processed-rows (map (λ b. b.id) bs) db') [
      | inl (r, marked, _) ↦ inl (
        r,
        rw (marked, ids, rows_are)
            (ap (map event_of)
                (keep-stamp_rows (is_waiting source) db'.now (λ _. refl) 0 limit db.rows t.numbered)
              ∙ sym (drop-map event_of limit (keep (is_waiting source) db.rows))),
      )
      | inr (x, r, kept) ↦ inr (x, r, rw (kept, rows_are))
    ]

keep-not_expired :
    (source : String) (cutoff : ℕ) (rs : List Row)
    → keep (is_waiting source) (keep (λ r. not (is_expired cutoff r)) rs)
      ≡ keep (is_waiting source) rs
keep-not_expired source cutoff [] = refl
keep-not_expired source cutoff (r ∷ rs) = ground (arith, keep-not_expired source cutoff rs)

-- A cleanup never takes an event from a queue.
pub pending-cleanup :
    (source : String) (retention : ℕ) (db : Db)
    → pending source (cleanup retention db).0 ≡ pending source db
unfolding cleanup
pending-cleanup source retention db = elim (Option-cases (fault db)) [
  | inr (x, f) ↦ rw (f, cleanup)
  | inl f ↦
      rw (f, cleanup) (ap (map event_of) (keep-not_expired source (db.now - retention) db.rows))
]
