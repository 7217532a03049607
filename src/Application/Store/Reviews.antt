-- ===== src/Application/Store/Reviews.antt =====
-- core/vericlose/infrastructure/duckdb/repositories.py: reviews, actions, receipts and audit events.
use veri_close.Prelude.{
  ◌+◌, String, str_eq, Bool, ◌&&◌, ◌||◌, Option, none, some, List, ◌∷◌, map, Result, ok,
  constraint_error, ◌>>=◌, ◌>>◌, raise_if, nat_eq, filter, first, any, sort_by,
}
use veri_close.Domain.Actions.{ProposedAction, ReviewDecision, ActionReceipt}
use veri_close.Application.Audit.{AuditEvent}
use veri_close.Application.Host.{Host}
use veri_close.Application.Store.{
  Row, Snapshot, Store, last_snapshot, in_run, items_of, insert_row, by_text, by_time,
}

-- DuckDBReviewRepository.append, list_for_run
unfoldable pub append_review : String → ReviewDecision → Store → Result Store
append_review run_id review store = do
  rows ← insert_row (λ (r : ReviewDecision). r.review_id) run_id review store.reviews
  ok (record store { reviews = rows })

unfoldable pub list_reviews : Host → String → Store → List ReviewDecision
list_reviews host run_id store =
    sort_by
      (by_time host (λ (r : ReviewDecision). r.reviewed_at) (λ (r : ReviewDecision). r.review_id))
      (items_of run_id store.reviews)

-- WHERE run_id = ? AND action_id = ?
unfoldable pub of_action : String → String → Snapshot ProposedAction → Bool
of_action run_id action_id r = str_eq r.run_id run_id && str_eq r.item.action_id action_id

-- DuckDBActionRepository.append_action
unfoldable pub append_action : String → ProposedAction → Store → Store
append_action run_id action store = record store {
  actions =
      record {
        run_id = run_id;
        snapshot_number = last_snapshot (of_action run_id action.action_id) store.actions + 1;
        item = action;
      }
      ∷ store.actions;
}

-- the rows whose snapshot is the last of their action
unfoldable pub is_latest : String → List (Snapshot ProposedAction) → Snapshot ProposedAction → Bool
is_latest run_id rows r =
    str_eq r.run_id run_id
    && nat_eq r.snapshot_number (last_snapshot (of_action r.run_id r.item.action_id) rows)

unfoldable pub latest_actions : String → List (Snapshot ProposedAction) → List ProposedAction
latest_actions run_id rows =
    map (λ (r : Snapshot ProposedAction). r.item) (filter (is_latest run_id rows) rows)

-- DuckDBActionRepository.list_for_run
unfoldable pub list_actions : String → Store → List ProposedAction
list_actions run_id store =
    sort_by (by_text (λ (a : ProposedAction). a.action_id)) (latest_actions run_id store.actions)

-- DuckDBActionRepository.append_receipt: a receipt's idempotency key is unique in its run too.
unfoldable pub append_receipt : String → ActionReceipt → Store → Result Store
append_receipt run_id receipt store = do
  raise_if
      (any
        (λ (r : Row ActionReceipt).
          in_run run_id r
          && (str_eq r.item.receipt_id receipt.receipt_id
              || str_eq r.item.idempotency_key receipt.idempotency_key))
        store.receipts)
      (constraint_error "duplicate key")
  ok (record store { receipts = record { run_id = run_id; item = receipt } ∷ store.receipts })

-- DuckDBActionRepository.list_receipts
unfoldable pub list_receipts : Host → String → Store → List ActionReceipt
list_receipts host run_id store =
    sort_by
      (by_time host (λ (r : ActionReceipt). r.executed_at) (λ (r : ActionReceipt). r.receipt_id))
      (items_of run_id store.receipts)

-- DuckDBActionRepository.find_receipt
unfoldable pub find_receipt : String → String → Store → Option ActionReceipt
find_receipt run_id key store =
    elim (first (λ (r : Row ActionReceipt). in_run run_id r && str_eq r.item.idempotency_key key)
      store.receipts) [ some r ↦ some r.item | none ↦ none ]

-- DuckDBAuditRepository.append
unfoldable pub append_audit : AuditEvent → Store → Result Store
append_audit event store = do
  raise_if
      (any (λ (e : AuditEvent). str_eq e.run_id event.run_id && str_eq e.audit_id event.audit_id)
        store.audit)
      (constraint_error "duplicate key")
  ok (record store { audit = event ∷ store.audit })
