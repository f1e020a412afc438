-- ===== src/Buffer/Postgres/Table.antt =====
-- Every operation keeps the table well-formed.
use Prim.Native.String.{String}
use philotes.Common.{
  ℕ, suc, ◌+◌, ◌≤◌, ◌<◌, inl, inr, Bool, Option, List, [], ◌∷◌, ◌++◌, length, keep, All,
  Option-cases, arith,
}
use philotes.Common.Errors.{GoError}
use philotes.Cdc.{Event}
use philotes.Buffer.Postgres.{Row, Db, to_row, to_rows, stamp_rows}
use philotes.Buffer.Postgres.Statements.{
  fault, past_fault, write, read_batch, mark_processed, cleanup, stats,
}
use philotes.Buffer.Postgres.Rows.{
  Ordered, Numbered, Ordered-keep, Numbered-keep, Ordered-mono, Numbered-mono,
}
use philotes.Buffer.Postgres.Queue.{IsTable}

All-mono {ℓ κ μ} :
    {A : Type ℓ} (P : A → Type κ) (Q : A → Type μ) (xs : List A)
    → ((a : A) → P a → Q a)
    → All P xs
    → All Q xs
All-mono P Q [] f h = tt
All-mono P Q (x ∷ xs) f h = (f x h.0, All-mono P Q xs f h.1)

All-append {ℓ κ} :
    {A : Type ℓ} (P : A → Type κ) (xs ys : List A) → All P xs → All P ys → All P (xs ++ ys)
All-append P [] ys h k = k
All-append P (x ∷ xs) ys h k = (h.0, All-append P xs ys h.1 k)

All-keep {ℓ κ} :
    {A : Type ℓ} (P : A → Type κ) (p : A → Bool) (xs : List A) → All P xs → All P (keep p xs)
All-keep P p [] h = tt
All-keep P p (x ∷ xs) h = ground (arith, All-keep P p xs h.1)

-- Rows of one write have one time, and numbers in a row.
to_rows-IsTable :
    (id now : ℕ) (es : List Event)
    → Ordered now (to_rows id now es)
      × Numbered id (to_rows id now es)
      × All (λ r. r.created_at ≤ now) (to_rows id now es)
      × All (λ r. r.id < id + length es) (to_rows id now es)
unfolding to_rows to_row
to_rows-IsTable id now [] = (tt, tt, tt, tt)
to_rows-IsTable id now (e ∷ es) =
    let (o, n, p, b) = to_rows-IsTable (suc id) now es in
    (
      (omega arith, o),
      (omega arith, n),
      (omega arith, p),
      (
        omega arith,
        All-mono (λ r. r.id < suc id + length es) (λ r. r.id < id + suc (length es))
            (to_rows (suc id) now es) (λ r h. omega arith) b,
      ),
    )

Ordered-append :
    (lo now : ℕ) (rs ss : List Row)
    → lo ≤ now
    → Ordered lo rs
    → All (λ r. r.created_at ≤ now) rs
    → Ordered now ss
    → Ordered lo (rs ++ ss)
Ordered-append lo now [] ss h o p k = Ordered-mono ss h k
Ordered-append lo now (r ∷ rs) ss h o p k =
    (o.0, Ordered-append r.created_at now rs ss p.0 o.1 p.1 k)

Numbered-append :
    (lo next : ℕ) (rs ss : List Row)
    → lo ≤ next
    → Numbered lo rs
    → All (λ r. r.id < next) rs
    → Numbered next ss
    → Numbered lo (rs ++ ss)
Numbered-append lo next [] ss h o p k = Numbered-mono ss h k
Numbered-append lo next (r ∷ rs) ss h o p k =
    (o.0, Numbered-append (suc r.id) next rs ss p.0 o.1 p.1 k)

-- A statement that fails leaves the rows.
past_fault-IsTable : (db : Db) → IsTable db → IsTable (past_fault db)
past_fault-IsTable db t = record {
  ordered = t.ordered;
  numbered = t.numbered;
  past = t.past;
  below = t.below;
}

write-IsTable : (es : List Event) (db : Db) → IsTable db → IsTable (write es db).0
unfolding write
write-IsTable [] db t = t
write-IsTable (e ∷ es) db t = elim (Option-cases (fault db)) [
  | inr (x, f) ↦ rw (f, write) (past_fault-IsTable db t)
  | inl f ↦
      let (o, n, p, b) = to_rows-IsTable db.next_id db.now (e ∷ es) in
      let next = db.next_id + length (e ∷ es) in
      rw (f, write)
        (record {
          ordered = Ordered-append 0 db.now db.rows _ (omega arith) t.ordered t.past o;
          numbered = Numbered-append 0 db.next_id db.rows _ (omega arith) t.numbered t.below n;
          past = All-append (λ r. r.created_at ≤ db.now) db.rows _ t.past p;
          below =
              All-append (λ r. r.id < next) db.rows _
                (All-mono (λ r. r.id < db.next_id) (λ r. r.id < next) db.rows (λ r h. omega arith)
                  t.below)
                b;
        })
]

stamp_rows-Ordered :
    (now lo : ℕ) (ids : List ℕ) (rs : List Row) → Ordered lo rs → Ordered lo (stamp_rows now ids rs)
unfolding stamp_rows
stamp_rows-Ordered now lo ids [] o = tt
stamp_rows-Ordered now lo ids (r ∷ rs) o =
    ground (arith, stamp_rows-Ordered now r.created_at ids rs o.1)

stamp_rows-Numbered :
    (now lo : ℕ) (ids : List ℕ) (rs : List Row)
    → Numbered lo rs
    → Numbered lo (stamp_rows now ids rs)
unfolding stamp_rows
stamp_rows-Numbered now lo ids [] o = tt
stamp_rows-Numbered now lo ids (r ∷ rs) o =
    ground (arith, stamp_rows-Numbered now (suc r.id) ids rs o.1)

stamp_rows-bounds :
    (now top next : ℕ) (ids : List ℕ) (rs : List Row)
    → All (λ r. r.created_at ≤ top) rs
    → All (λ r. r.id < next) rs
    → All (λ r. r.created_at ≤ top) (stamp_rows now ids rs)
      × All (λ r. r.id < next) (stamp_rows now ids rs)
unfolding stamp_rows
stamp_rows-bounds now top next ids [] p b = (tt, tt)
stamp_rows-bounds now top next ids (r ∷ rs) p b =
    let (p', b') = stamp_rows-bounds now top next ids rs p.1 b.1 in ground arith

mark_processed-IsTable : (ids : List ℕ) (db : Db) → IsTable db → IsTable (mark_processed ids db).0
unfolding mark_processed
mark_processed-IsTable [] db t = t
mark_processed-IsTable (i ∷ ids) db t = elim (Option-cases (fault db)) [
  | inr (x, f) ↦ rw (f, mark_processed) (past_fault-IsTable db t)
  | inl f ↦
      let (p, b) = stamp_rows-bounds db.now db.now db.next_id (i ∷ ids) db.rows t.past t.below in
      rw (f, mark_processed)
        (record {
          ordered = stamp_rows-Ordered db.now 0 (i ∷ ids) db.rows t.ordered;
          numbered = stamp_rows-Numbered db.now 0 (i ∷ ids) db.rows t.numbered;
          past = p;
          below = b;
        })
]

cleanup-IsTable : (retention : ℕ) (db : Db) → IsTable db → IsTable (cleanup retention db).0
unfolding cleanup
cleanup-IsTable retention db t = elim (Option-cases (fault db)) [
  | inr (x, f) ↦ rw (f, cleanup) (past_fault-IsTable db t)
  | inl f ↦
      rw (f, cleanup)
        (record {
          ordered = Ordered-keep _ 0 db.rows t.ordered;
          numbered = Numbered-keep _ 0 db.rows t.numbered;
          past = All-keep (λ r. r.created_at ≤ db.now) _ db.rows t.past;
          below = All-keep (λ r. r.id < db.next_id) _ db.rows t.below;
        })
]

read_batch-IsTable :
    (source : String) (limit : ℕ) (db : Db) → IsTable db → IsTable (read_batch source limit db).0
unfolding read_batch
read_batch-IsTable source limit db t = elim (Option-cases (fault db)) [
  | inr (x, f) ↦ rw (f, read_batch) (past_fault-IsTable db t)
  | inl f ↦ rw (f, read_batch) (past_fault-IsTable db t)
]

stats-IsTable : (db : Db) → IsTable db → IsTable (stats db).0
unfolding stats
stats-IsTable db t = elim (Option-cases (fault db)) [
  | inr (x, f) ↦ rw (f, stats) (past_fault-IsTable db t)
  | inl f ↦ rw (f, stats) (past_fault-IsTable db t)
]

-- The calls that a table is given, with the time that passes and the faults that are in store.
pub data Call : Type 0 where
  writes : List Event → Call
  reads : String → ℕ → Call
  marks : List ℕ → Call
  cleans : ℕ → Call
  counts : Call
  passes : ℕ → List (Option GoError) → Call

abbrev pub apply : Db → Call → Db
apply db (writes es) = (write es db).0
apply db (reads source limit) = (read_batch source limit db).0
apply db (marks ids) = (mark_processed ids db).0
apply db (cleans retention) = (cleanup retention db).0
apply db counts = (stats db).0
apply db (passes time faults) = record db { now = db.now + time; faults = faults }

abbrev pub apply_all : Db → List Call → Db
apply_all db [] = db
apply_all db (c ∷ cs) = apply_all (apply db c) cs

abbrev pub empty_table : Db
empty_table = record { rows = []; next_id = 1; now = 0; faults = [] }

apply-IsTable : (db : Db) (c : Call) → IsTable db → IsTable (apply db c)
apply-IsTable db (writes es) t = write-IsTable es db t
apply-IsTable db (reads source limit) t = read_batch-IsTable source limit db t
apply-IsTable db (marks ids) t = mark_processed-IsTable ids db t
apply-IsTable db (cleans retention) t = cleanup-IsTable retention db t
apply-IsTable db counts t = stats-IsTable db t
apply-IsTable db (passes time faults) t = record {
  ordered = t.ordered;
  numbered = t.numbered;
  past =
      All-mono (λ r. r.created_at ≤ db.now) (λ r. r.created_at ≤ db.now + time) db.rows
        (λ r h. omega arith) t.past;
  below = t.below;
}

-- After any list of calls, failing ones among them, and at any pace of the clock, a table that was
-- empty is well-formed: times do not fall along its rows, numbers rise, and both are bounded.
pub history-IsTable : (cs : List Call) → IsTable (apply_all empty_table cs)
history-IsTable cs = from empty_table cs (omega arith)
  where
    from : (db : Db) (cs : List Call) → IsTable db → IsTable (apply_all db cs)
    from db [] t = t
    from db (c ∷ cs) t = from (apply db c) cs (apply-IsTable db c t)
