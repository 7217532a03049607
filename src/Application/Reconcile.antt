-- ===== src/Application/Reconcile.antt =====
-- core/vericlose/application/run_reconciliation.py: a run of the kernel over the persisted events.
-- The log lines are left out.
pub mod Inserted
pub mod Kept
pub mod Finished
pub mod Stored
pub mod Ended
use veri_close.Prelude.{
  String, str_append, str_eq, Bool, true, false, not, ◌||◌, none, some, List, [], ◌∷◌, Result, ok,
  err, Error, value_error, ◌>>=◌, ◌>>◌, raise_if, or_raise, length, total, str_ℕ, if◌then◌else◌,
}
use veri_close.Domain.Decisions.{ReconciliationDecision}
use veri_close.Domain.Enums.{RunState}
use veri_close.Domain.Events.{CanonicalEvent, DateTime}
use veri_close.Domain.Exceptions.{ExceptionCase}
use veri_close.Domain.Runs.{RunManifest, transition}
use veri_close.Reconciliation.Pipeline.{KernelResult, reconcile, auto_cleared_count}
use veri_close.Reconciliation.Platform.{Platform}
use veri_close.Reconciliation.Policy.{ReconciliationPolicy, versioned_id}
use veri_close.Application.Audit.{AuditEvent, audit_event}
use veri_close.Application.Store.{
  ReconciliationRunRecord, Store, append_run, get_run, list_events, append_decision,
  append_exception, append_summary,
}
use veri_close.Application.Store.Reviews.{append_audit}
use veri_close.Application.Workflow.Review.{Outcome}

abbrev pub is_validated : RunState → Bool
is_validated RunState.validated = true
is_validated _ = false

abbrev pub is_reconciling : RunState → Bool
is_reconciling RunState.reconciling = true
is_reconciling _ = false

-- AuditEvent(...), appended
unfoldable pub audit :
    String → String → String → DateTime → List (String × String) → Store → Result Store
audit suffix run_id event_type timestamp details store = do
  event ← audit_event (record {
    audit_id = str_append run_id suffix;
    run_id = run_id;
    event_type = event_type;
    occurred_at = timestamp;
    details = details;
  })
  append_audit event store

pub record Started : Type 0 where
  pub manifest : RunManifest
  pub events : List CanonicalEvent
  pub store : Store

-- the first transaction of RunReconciliationService.run
unfoldable pub start_run : ReconciliationPolicy → String → DateTime → Store → Result Started
start_run policy run_id timestamp store = do
  manifest ← or_raise (get_run run_id store) (value_error "run does not exist")
  raise_if (not (is_validated manifest.state)) (value_error "run must be VALIDATED")
  raise_if
      (not (
        str_eq manifest.policy_version policy.policy_id
        || str_eq manifest.policy_version (versioned_id policy)))
      (value_error "run policy does not match")
  let events = list_events run_id store
  reconciling ← transition manifest RunState.reconciling
  audited ←
      audit ":reconciliation-started" run_id "RECONCILIATION_STARTED" timestamp
        (("event_count", str_ℕ (length events)) ∷ []) (append_run reconciling store)
  ok (record { manifest = reconciling; events = events; store = audited })

-- the loops over the decisions and the exceptions
unfoldable pub append_decisions : String → List ReconciliationDecision → Store → Result Store
append_decisions run_id [] store = ok store
append_decisions run_id (d ∷ decisions) store = do
  stored ← append_decision run_id d store
  append_decisions run_id decisions stored

unfoldable pub append_exceptions : String → List ExceptionCase → Store → Result Store
append_exceptions run_id [] store = ok store
append_exceptions run_id (x ∷ exceptions) store = do
  stored ← append_exception run_id x store
  append_exceptions run_id exceptions stored

-- RULE_VERSION of rules/settlement.py
abbrev pub rule_version : String
rule_version = "segment4-v1"

-- the summary of a kernel's result, without the timings
unfoldable pub summary_of : ReconciliationPolicy → String → KernelResult → ReconciliationRunRecord
summary_of policy run_id kernel = record {
  run_id = run_id;
  policy_version = versioned_id policy;
  rule_version = rule_version;
  decision_count = length kernel.decisions;
  auto_cleared_count = auto_cleared_count kernel;
  exception_count = length kernel.exceptions;
  amount_at_risk_minor =
      total (λ (x : ExceptionCase). x.amount_at_risk.amount_minor) kernel.exceptions;
}

abbrev pub completed_details : ReconciliationRunRecord → List (String × String)
completed_details summary =
    ("decision_count", str_ℕ summary.decision_count)
    ∷ ("auto_cleared_count", str_ℕ summary.auto_cleared_count)
    ∷ ("exception_count", str_ℕ summary.exception_count)
    ∷ ("amount_at_risk_minor", str_ℕ summary.amount_at_risk_minor)
    ∷ []

-- the second transaction
unfoldable pub save_run :
    DateTime → KernelResult → ReconciliationRunRecord → RunManifest → Store → Result Store
save_run timestamp kernel summary completed store = do
  decided ← append_decisions summary.run_id kernel.decisions store
  excepted ← append_exceptions summary.run_id kernel.exceptions decided
  summarised ← append_summary summary excepted
  audit ":reconciliation-completed" summary.run_id "RECONCILIATION_COMPLETED" timestamp
      (completed_details summary) (append_run completed summarised)

pub record ReconcileRunResult : Type 0 where
  pub manifest : RunManifest
  pub kernel : KernelResult
  pub summary : ReconciliationRunRecord

pub record Completed : Type 0 where
  pub result : ReconcileRunResult
  pub store : Store

-- the body of the `try`
unfoldable pub complete_run :
    Platform → ReconciliationPolicy → String → DateTime → Started → Result Completed
complete_run platform policy run_id timestamp started = do
  kernel ← reconcile platform started.events policy
  let summary = summary_of policy run_id kernel
  completed ← transition started.manifest RunState.completed
  stored ← save_run timestamp kernel summary completed started.store
  ok (record {
    result = record { manifest = completed; kernel = kernel; summary = summary };
    store = stored;
  })

-- RunReconciliationService._mark_failed
unfoldable pub mark_failed : RunManifest → DateTime → Store → Result Store
mark_failed reconciling timestamp store = elim (get_run reconciling.run_id store) [
  | none ↦ ok store
  | some current ↦
      if is_reconciling current.state
      then (do
        failed ← transition current RunState.failed
        audit ":reconciliation-failed" reconciling.run_id "RECONCILIATION_FAILED" timestamp []
            (append_run failed store))
      else ok store
]

-- RunReconciliationService.run: what the `except` raises again, unless _mark_failed raises
unfoldable pub after_failure : DateTime → Started → Error → Outcome ReconcileRunResult
after_failure timestamp started e = elim (mark_failed started.manifest timestamp started.store) [
  | ok marked ↦ record { result = err e; store = marked }
  | err e' ↦ record { result = err e'; store = started.store }
]

unfoldable pub run :
    Platform → ReconciliationPolicy → String → DateTime → Store → Outcome ReconcileRunResult
run platform policy run_id timestamp store = elim (start_run policy run_id timestamp store) [
  | err e ↦ record { result = err e; store = store }
  | ok started ↦ elim (complete_run platform policy run_id timestamp started) [
    | ok c ↦ record { result = ok c.result; store = c.store }
    | err e ↦ after_failure timestamp started e
  ]
]
