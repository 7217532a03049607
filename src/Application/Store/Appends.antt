-- ===== src/Application/Store/Appends.antt =====
-- core/vericlose/infrastructure/duckdb/repositories.py: what an insertion that succeeds leaves.
use veri_close.Prelude.{◌≡◌, refl, String, ◌∷◌, ok, arith}
use veri_close.Domain.Actions.{
  ProposedAction, ActionReceipt, action_receipt, ReviewDecision, review_decision,
}
use veri_close.Application.Audit.{AuditEvent, audit_event}
use veri_close.Application.Store.{Store, insert_row}
use veri_close.Application.Store.Latest.{new_row}
use veri_close.Application.Store.Reviews.{
  append_action, append_receipt, append_audit, append_review,
}

pub audit_event-same : (e f : AuditEvent) → audit_event e ≡ ok f → e ≡ f
unfolding audit_event
audit_event-same e f h = ground arith

pub append_audit-inv :
    (e : AuditEvent) (s t : Store) → append_audit e s ≡ ok t → t ≡ record s { audit = e ∷ s.audit }
unfolding append_audit
append_audit-inv e s t h = ground arith

pub append_receipt-inv :
    (run_id : String) (r : ActionReceipt) (s t : Store)
    → append_receipt run_id r s ≡ ok t
    → t ≡ record s { receipts = record { run_id = run_id; item = r } ∷ s.receipts }
unfolding append_receipt
append_receipt-inv run_id r s t h = ground arith

pub append_action-new_row :
    (run_id : String) (a : ProposedAction) (s : Store)
    → append_action run_id a s ≡ record s { actions = new_row run_id a s.actions ∷ s.actions }
unfolding append_action
append_action-new_row run_id a s = refl

pub append_review-inv :
    (run_id : String) (r : ReviewDecision) (s t : Store)
    → append_review run_id r s ≡ ok t
    → t ≡ record s { reviews = record { run_id = run_id; item = r } ∷ s.reviews }
unfolding append_review insert_row
append_review-inv run_id r s t h = ground arith

pub action_receipt-same : (r q : ActionReceipt) → action_receipt r ≡ ok q → r ≡ q
unfolding action_receipt
action_receipt-same r q h = ground arith

pub review_decision-same : (r q : ReviewDecision) → review_decision r ≡ ok q → r ≡ q
unfolding review_decision
review_decision-same r q h = ground arith
