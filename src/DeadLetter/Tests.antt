-- ===== src/DeadLetter/Tests.antt =====
-- Runs of the dead letters.
use Prim.Native.String.{String, ◌++◌}
use text.Mathlib.Text.{◌==◌ as str_eq}
use philotes.Common.{◌≡◌, refl, subst, false, none, some, List, [], ◌∷◌, arith, if◌then◌else◌}
use philotes.Common.Errors.{plain, ok}
use mathlib.Core.Option.{some_inj}
use philotes.Cdc.{Event, insert}
use philotes.DeadLetter.{from_cdc_event, FailedEvent, Json, transient, to_event}
use philotes.DeadLetter.Postgres.{
  query_events, LetterTable, past_fault, write, read, read_by_source, mark_retried, delete, cleanup,
  count,
}
use philotes.Common.Maps.{lookup, put}
use philotes.DeadLetter.Postgres.Statistics.{get_stats}
use philotes.DeadLetter.Postgres.Recovery.{Any, read_by_source-recovers}

abbrev event : Event
event = record {
  id = "e";
  lsn = "0/1";
  transaction_id = 1;
  timestamp = 5;
  schema = "public";
  table = "users";
  operation = insert;
  before = [];
  after = [];
  key_columns = [];
  metadata = [];
}

-- JSON of the one event.
abbrev json : Json
json = record {
  marshal = λ e. some e.id;
  unmarshal = λ text. if str_eq text "e " then some event else none;
}

abbrev table : LetterTable
table = record { rows = []; next_id = 1; now = 9; faults = []; jsonb = λ text. text ++ " " }

abbrev letter : FailedEvent
letter = record {
  id = 0;
  original_event_id = 0;
  source_id = "e";
  schema_name = "public";
  table_name = "users";
  operation = insert;
  event_data = "e";
  error_message = plain 3;
  error_type = transient;
  retry_count = 0;
  created_at = 7;
  last_retry_at = none;
  expires_at = some 8;
}

abbrev older : FailedEvent
older = record letter { created_at = 2; expires_at = none }

abbrev both : LetterTable
both = (write older (write letter table).0).0

-- The older one is read first, and a retry of no letter is an error.
ordered : (read 1 both).1 ≡ ok (record older { id = 2; event_data = "e " } ∷ [])
unfolding query_events write
ordered = refl

expired : (cleanup both).1 ≡ ok 1
unfolding cleanup write
expired = refl

missed : (mark_retried 5 both).1 ≡ some (plain 96)
unfolding mark_retried write
missed = refl

deleted : (count (delete 1 both).0).1 ≡ ok 1
unfolding count delete write
deleted = refl

-- Two letters of one source; the types are known when the query of the times fails.
counted :
    let stats = (get_stats both).1 in
    (stats.total_count ≡ 2)
    × (stats.by_source ≡ ("e", 2) ∷ [])
    × (stats.by_error_type transient ≡ 2)
    × (stats.oldest_event ≡ some 2)
    × (stats.newest_event ≡ some 7)
unfolding get_stats count write lookup put
counted = (refl, refl, refl, refl, refl)

half_counted :
    let stats = (get_stats (record both { faults = none ∷ none ∷ none ∷ some (plain 1) ∷ [] })).1 in
    (stats.by_error_type transient ≡ 2) × (stats.oldest_event ≡ none)
unfolding get_stats write
half_counted = (refl, refl)

json-law :
    (text : String)
    → json.marshal event ≡ some text
    → json.unmarshal (table.jsonb text) ≡ some event
json-law text h = subst (λ x. json.unmarshal (table.jsonb x) ≡ some event) (some_inj.0 h) refl

read_by_source-recovers_example :
    ((es : List FailedEvent) × ((read_by_source "e" 4 (write letter table).0).1 ≡ ok es)
      × Any (λ f. to_event json f ≡ some event) es)
    × ((source : String)
        → str_eq "e" source ≡ false
        → (read_by_source source 4 (write letter table).0).1
          ≡ (read_by_source source 4 (past_fault table)).1)
unfolding from_cdc_event write
read_by_source-recovers_example =
    read_by_source-recovers json event (plain 3) transient 1 7 4 letter table json-law refl refl
      refl (omega arith)
