-- ===== src/Application/Reconcile/Stored.antt =====
-- core/vericlose/application/run_reconciliation.py: what the second transaction of a run stores.
use veri_close.Prelude.{◌≡◌, ◌∙◌, refl, String, List, [], ◌∷◌, ok, arith, Result-cases, inl, inr}
use veri_close.Domain.Decisions.{ReconciliationDecision}
use veri_close.Domain.Events.{DateTime}
use veri_close.Domain.Exceptions.{ExceptionCase}
use veri_close.Domain.Runs.{RunManifest}
use veri_close.Reconciliation.Pipeline.{KernelResult}
use veri_close.Application.Reconcile.{
  append_decisions, append_exceptions, completed_details, save_run,
}
use veri_close.Application.Reconcile.Finished.{audit-inv}
use veri_close.Application.Store.{
  ReconciliationRunRecord, Row, Store, append_run, append_decision, append_exception,
  append_summary, insert_row,
}

-- The rows of a run on top of those of a table, the last of them first.
abbrev pub stacked : {A : Type 0} → String → List A → List (Row A) → List (Row A)
stacked run_id [] rows = rows
stacked run_id (x ∷ xs) rows = stacked run_id xs (record { run_id = run_id; item = x } ∷ rows)

-- Each decision and each exception of the kernel's result is a new row of its table, and the summary
-- is one of its own.
pub record IsStored (run_id : String) (kernel : KernelResult) (summary : ReconciliationRunRecord)
    (s t : Store) : Type 0 where
  pub decisions : t.decisions ≡ stacked run_id kernel.decisions s.decisions
  pub exceptions : t.exceptions ≡ stacked run_id kernel.exceptions s.exceptions
  pub summaries : t.summaries ≡ summary ∷ s.summaries

append_decision-inv :
    (run_id : String) (x : ReconciliationDecision) (s t : Store)
    → append_decision run_id x s ≡ ok t
    → t ≡ record s { decisions = record { run_id = run_id; item = x } ∷ s.decisions }
unfolding append_decision insert_row
append_decision-inv run_id x s t h = ground arith

append_decisions-inv :
    (run_id : String) (xs : List ReconciliationDecision) (s t : Store)
    → append_decisions run_id xs s ≡ ok t
    → t ≡ record s { decisions = stacked run_id xs s.decisions }
unfolding append_decisions
append_decisions-inv run_id [] s t h = ground arith
append_decisions-inv run_id (x ∷ xs) s t h = elim (Result-cases (append_decision run_id x s)) [
  | inr (e, failed) ↦ absurd (ground arith)
  | inl (u, stored) ↦
      append_decisions-inv run_id xs u t (ground arith)
      ∙ rw (append_decision-inv run_id x s u stored) refl
]

append_exception-inv :
    (run_id : String) (x : ExceptionCase) (s t : Store)
    → append_exception run_id x s ≡ ok t
    → t ≡ record s { exceptions = record { run_id = run_id; item = x } ∷ s.exceptions }
unfolding append_exception insert_row
append_exception-inv run_id x s t h = ground arith

append_exceptions-inv :
    (run_id : String) (xs : List ExceptionCase) (s t : Store)
    → append_exceptions run_id xs s ≡ ok t
    → t ≡ record s { exceptions = stacked run_id xs s.exceptions }
unfolding append_exceptions
append_exceptions-inv run_id [] s t h = ground arith
append_exceptions-inv run_id (x ∷ xs) s t h = elim (Result-cases (append_exception run_id x s)) [
  | inr (e, failed) ↦ absurd (ground arith)
  | inl (u, stored) ↦
      append_exceptions-inv run_id xs u t (ground arith)
      ∙ rw (append_exception-inv run_id x s u stored) refl
]

append_summary-inv :
    (summary : ReconciliationRunRecord) (s t : Store)
    → append_summary summary s ≡ ok t
    → t ≡ record s { summaries = summary ∷ s.summaries }
unfolding append_summary
append_summary-inv summary s t h = ground arith

pub save_run-IsStored :
    (timestamp : DateTime) (kernel : KernelResult) (summary : ReconciliationRunRecord)
    (m : RunManifest) (s t : Store)
    → save_run timestamp kernel summary m s ≡ ok t
    → IsStored summary.run_id kernel summary s t
unfolding save_run append_run
save_run-IsStored timestamp kernel summary m s t h =
    elim (Result-cases (append_decisions summary.run_id kernel.decisions s)) [
      | inr (e, failed) ↦ absurd (ground arith)
      | inl (a, decided) ↦
          elim (Result-cases (append_exceptions summary.run_id kernel.exceptions a)) [
            | inr (e, failed) ↦ absurd (ground arith)
            | inl (b, excepted) ↦ elim (Result-cases (append_summary summary b)) [
              | inr (e, failed) ↦ absurd (ground arith)
              | inl (c, summarised) ↦
                  let (text, aware, logged) =
                    audit-inv ":reconciliation-completed" summary.run_id "RECONCILIATION_COMPLETED"
                      timestamp (completed_details summary) (append_run m c) t (ground arith) in
                  let last = append_summary-inv summary b c summarised in
                  let middle =
                    append_exceptions-inv summary.run_id kernel.exceptions a b excepted in
                  let first = append_decisions-inv summary.run_id kernel.decisions s a decided in
                  record {
                    decisions = rw logged (rw last (rw middle (rw first refl)));
                    exceptions = rw logged (rw last (rw middle (rw first refl)));
                    summaries = rw logged (rw last (rw middle (rw first refl)));
                  }
            ]
          ]
    ]
