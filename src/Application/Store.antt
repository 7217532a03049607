-- ===== src/Application/Store.antt =====
-- core/vericlose/infrastructure/duckdb/repositories.py, with the keys of its migrations. A table is
-- the list of its rows, the latest inserted first, and a column `payload_json` is the value that it
-- encodes. A transaction is a function from the store to a result: on an error there is no new
-- store, as ROLLBACK leaves the one before.
pub mod Reviews
pub mod Latest
pub mod Appends
pub mod Grows
use veri_close.Prelude.{
  ℕ, ◌+◌, String, str_eq, str_leb, Bool, ◌&&◌, ◌||◌, Option, none, some, List, [], ◌∷◌, map, Result,
  ok, constraint_error, value_error, not, ◌>>=◌, ◌>>◌, raise_if, ltb, leb, nat_eq, filter, first,
  any, sort_by, dedup, if◌then◌else◌,
}
use veri_close.Domain.Actions.{ProposedAction, ReviewDecision, ActionReceipt}
use veri_close.Domain.Decisions.{ReconciliationDecision}
use veri_close.Domain.Events.{CanonicalEvent, DateTime}
use veri_close.Domain.Exceptions.{ExceptionCase}
use veri_close.Domain.Runs.{RunManifest}
use veri_close.Application.Audit.{AuditEvent}
use veri_close.Application.Host.{Host}

-- ReconciliationRunRecord of ports/repositories.py, without the timings
pub record ReconciliationRunRecord : Type 0 where
  pub run_id : String
  pub policy_version : String
  pub rule_version : String
  pub decision_count : ℕ
  pub auto_cleared_count : ℕ
  pub exception_count : ℕ
  pub amount_at_risk_minor : ℕ

-- a row of a table that keeps one payload for a run
pub record Row (A : Type 0) : Type 0 where
  pub run_id : String
  pub item : A

-- a row of a table that keeps every snapshot
pub record Snapshot (A : Type 0) : Type 0 where
  pub run_id : String
  pub snapshot_number : ℕ
  pub item : A

pub record Store : Type 0 where
  pub runs : List (Snapshot RunManifest)
  pub events : List (Row CanonicalEvent)
  pub decisions : List (Row ReconciliationDecision)
  pub exceptions : List (Row ExceptionCase)
  pub summaries : List ReconciliationRunRecord
  pub reviews : List (Row ReviewDecision)
  pub actions : List (Snapshot ProposedAction)
  pub receipts : List (Row ActionReceipt)
  pub audit : List AuditEvent

-- SELECT coalesce(max(snapshot_number), 0) of the rows that the test picks
unfoldable pub last_snapshot : {A : Type 0} → (Snapshot A → Bool) → List (Snapshot A) → ℕ
last_snapshot p [] = 0
last_snapshot p (r ∷ rows) =
    let rest = last_snapshot p rows in
    if p r then (if leb rest r.snapshot_number then r.snapshot_number else rest) else rest

-- WHERE run_id = ?
unfoldable pub in_run : {A : Type 0} → String → Row A → Bool
in_run run_id r = str_eq r.run_id run_id

unfoldable pub items_of : {A : Type 0} → String → List (Row A) → List A
items_of run_id rows = map (λ (r : Row _). r.item) (filter (in_run run_id) rows)

-- INSERT into a table whose key is the run and the payload's identifier
unfoldable pub insert_row :
    {A : Type 0} → (A → String) → String → A → List (Row A) → Result (List (Row A))
insert_row key run_id item rows = do
  raise_if (any (λ (r : Row _). in_run run_id r && str_eq (key r.item) (key item)) rows)
      (constraint_error "duplicate key")
  ok (record { run_id = run_id; item = item } ∷ rows)

-- ORDER BY a text
abbrev pub by_text : {A : Type 0} → (A → String) → A → A → Bool
by_text key a b = str_leb (key a) (key b)

-- ORDER BY a time, then a text
abbrev pub by_time : {A : Type 0} → Host → (A → DateTime) → (A → String) → A → A → Bool
by_time host at key a b =
    ltb (host.instant (at a)) (host.instant (at b))
    || nat_eq (host.instant (at a)) (host.instant (at b)) && str_leb (key a) (key b)

unfoldable pub of_run : String → Snapshot RunManifest → Bool
of_run run_id r = str_eq r.run_id run_id

-- DuckDBRunRepository.append
unfoldable pub append_run : RunManifest → Store → Store
append_run manifest store = record store {
  runs =
      record {
        run_id = manifest.run_id;
        snapshot_number = last_snapshot (of_run manifest.run_id) store.runs + 1;
        item = manifest;
      }
      ∷ store.runs;
}

-- DuckDBRunRepository.get
unfoldable pub get_run : String → Store → Option RunManifest
get_run run_id store =
    elim (first
      (λ (r : Snapshot RunManifest).
        of_run run_id r && nat_eq r.snapshot_number (last_snapshot (of_run run_id) store.runs))
      store.runs) [ some r ↦ some r.item | none ↦ none ]

-- DuckDBRunRepository.list_ids
unfoldable pub list_ids : Store → List String
list_ids store = sort_by str_leb (dedup (map (λ (r : Snapshot RunManifest). r.run_id) store.runs))

-- DuckDBEventRepository.list_for_run
unfoldable pub list_events : String → Store → List CanonicalEvent
list_events run_id store =
    sort_by (by_text (λ (e : CanonicalEvent). e.event_id)) (items_of run_id store.events)

-- DuckDBEventRepository.append
unfoldable pub append_events : String → List CanonicalEvent → Store → Result Store
append_events run_id [] store = ok store
append_events run_id (e ∷ events) store = do
  raise_if (not (str_eq e.run_id run_id))
      (value_error "event run_id does not match repository run_id")
  rows ← insert_row (λ (x : CanonicalEvent). x.event_id) run_id e store.events
  append_events run_id events (record store { events = rows })

-- DuckDBDecisionRepository.append. Its proof checks and evidence links have keys that begin with the
-- decision's own, and the ordinals of one decision differ.
unfoldable pub append_decision : String → ReconciliationDecision → Store → Result Store
append_decision run_id d store = do
  rows ← insert_row (λ (x : ReconciliationDecision). x.decision_id) run_id d store.decisions
  ok (record store { decisions = rows })

-- DuckDBDecisionRepository.list_for_run
unfoldable pub list_decisions : String → Store → List ReconciliationDecision
list_decisions run_id store =
    sort_by (by_text (λ (d : ReconciliationDecision). d.decision_id))
      (items_of run_id store.decisions)

-- DuckDBExceptionRepository.append, list_for_run
unfoldable pub append_exception : String → ExceptionCase → Store → Result Store
append_exception run_id x store = do
  rows ← insert_row (λ (y : ExceptionCase). y.case_id) run_id x store.exceptions
  ok (record store { exceptions = rows })

unfoldable pub list_exceptions : String → Store → List ExceptionCase
list_exceptions run_id store =
    sort_by (by_text (λ (x : ExceptionCase). x.case_id)) (items_of run_id store.exceptions)

-- DuckDBReconciliationRunRepository.append
unfoldable pub append_summary : ReconciliationRunRecord → Store → Result Store
append_summary summary store = do
  raise_if (any (λ (s : ReconciliationRunRecord). str_eq s.run_id summary.run_id) store.summaries)
      (constraint_error "duplicate key")
  ok (record store { summaries = summary ∷ store.summaries })
