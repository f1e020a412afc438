-- ===== src/DeadLetter/Postgres/Statistics.antt =====
-- internal/cdc/deadletter/postgres.go: the statistics of the dead letters, by four statements.
use Prim.Native.String.{String}
use text.Mathlib.Text.{◌==◌ as str_eq}
use text.Mathlib.TextEquality.{eq_iff}
use philotes.Common.{
  ℕ, suc, ◌≡◌, refl, ap, ◌∙◌, inl, inr, Bool, false, Option, none, some, List, [], ◌∷◌, length,
  keep, ltb, ◌==◌, if◌then◌else◌, Bool-cases,
}
use philotes.Common.Errors.{GoError, wrapped, ok, err}
use philotes.Common.Maps.{lookup, put, lookup-put}
use philotes.DeadLetter.{ErrorType, transient, permanent, validation, schema, unknown}
use philotes.DeadLetter.Postgres.{LetterRow, LetterTable, fault, past_fault, count}

-- A type that is not in the map by error types has the count 0.
pub record LetterStats : Type 0 where
  pub total_count : ℕ
  pub by_source : List (String × ℕ)
  pub by_error_type : ErrorType → ℕ
  pub oldest_event : Option ℕ
  pub newest_event : Option ℕ

abbrev pub no_letters : LetterStats
no_letters = record {
  total_count = 0;
  by_source = [];
  by_error_type = λ t. 0;
  oldest_event = none;
  newest_event = none;
}

abbrev pub source_query_failed : ℕ
source_query_failed = 97

abbrev pub type_query_failed : ℕ
type_query_failed = 98

abbrev pub time_query_failed : ℕ
time_query_failed = 99

abbrev pub or_zero : Option ℕ → ℕ
or_zero none = 0
or_zero (some n) = n

abbrev pub count_of : String → List (String × ℕ) → ℕ
count_of key m = or_zero (lookup key m)

-- `GROUP BY source_id`, with the number of the rows of each group.
unfoldable pub count_sources : List LetterRow → List (String × ℕ)
count_sources [] = []
count_sources (r ∷ rs) =
    let rest = count_sources rs in put r.source_id (suc (count_of r.source_id rest)) rest

abbrev type_number : ErrorType → ℕ
type_number transient = 0
type_number permanent = 1
type_number validation = 2
type_number schema = 3
type_number unknown = 4

abbrev pub has_type : ErrorType → LetterRow → Bool
has_type t r = elim (r.error_type) [ none ↦ false | some u ↦ type_number u == type_number t ]

-- `MIN` and `MAX` of the times, which are NULL without rows.
unfoldable pub oldest : List LetterRow → Option ℕ
oldest [] = none
oldest (r ∷ rs) = elim (oldest rs) [
  | none ↦ some r.created_at
  | some t ↦ if ltb r.created_at t then some r.created_at else some t
]

unfoldable pub newest : List LetterRow → Option ℕ
newest [] = none
newest (r ∷ rs) = elim (newest rs) [
  | none ↦ some r.created_at
  | some t ↦ if ltb t r.created_at then some r.created_at else some t
]

abbrev with_times : LetterStats → LetterTable → LetterTable × LetterStats × Option GoError
with_times stats db = elim (fault db) [
  | some x ↦ (past_fault db, stats, some (wrapped time_query_failed x))
  | none ↦ (
    past_fault db,
    record stats { oldest_event = oldest db.rows; newest_event = newest db.rows },
    none,
  )
]

abbrev with_types : LetterStats → LetterTable → LetterTable × LetterStats × Option GoError
with_types stats db = elim (fault db) [
  | some x ↦ (past_fault db, stats, some (wrapped type_query_failed x))
  | none ↦
      with_times (record stats { by_error_type = λ t. length (keep (has_type t) db.rows) })
        (past_fault db)
]

abbrev with_sources : LetterStats → LetterTable → LetterTable × LetterStats × Option GoError
with_sources stats db = elim (fault db) [
  | some x ↦ (past_fault db, stats, some (wrapped source_query_failed x))
  | none ↦ with_types (record stats { by_source = count_sources db.rows }) (past_fault db)
]

-- Beside an error it returns what it has so far.
unfoldable pub get_stats : LetterTable → LetterTable × LetterStats × Option GoError
unfolding count count_sources oldest newest
get_stats db =
    let (db', n) = count db in
    elim n [
      | err x ↦ (db', no_letters, some x)
      | ok total ↦ with_sources (record no_letters { total_count = total }) db'
    ]

count_of-put :
    (key k : String) (n : ℕ) (m : List (String × ℕ))
    → count_of k (put key n m) ≡ (if str_eq key k then n else count_of k m)
count_of-put key k n m =
    ap or_zero (lookup-put key k n m)
    ∙ elim (Bool-cases (str_eq key k)) [ inl same ↦ rw same refl | inr other ↦ rw other refl ]

-- Each source has the number of its letters, and one that has none is not in the map or has 0.
pub count_sources-keep :
    (k : String) (rows : List LetterRow)
    → count_of k (count_sources rows) ≡ length (keep (λ r. str_eq r.source_id k) rows)
unfolding count_sources lookup
count_sources-keep k [] = refl
count_sources-keep k (r ∷ rs) = elim (Bool-cases (str_eq r.source_id k)) [
  | inl same ↦
      count_of-put r.source_id k (suc (count_of r.source_id (count_sources rs))) (count_sources rs)
      ∙ rw same (
          ap suc (
            ap (λ n. count_of n (count_sources rs)) ((eq_iff r.source_id k).0 same)
            ∙ count_sources-keep k rs))
  | inr other ↦
      count_of-put r.source_id k (suc (count_of r.source_id (count_sources rs))) (count_sources rs)
      ∙ rw other (count_sources-keep k rs)
]
