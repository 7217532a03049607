-- ===== src/Application/Reconcile/Inserted.antt =====
-- core/vericlose/application/run_reconciliation.py: the rows that a run of the kernel inserts.
use veri_close.Prelude.{
  ◌≡◌, ◌∙◌, refl, subst, String, List, [], ◌∷◌, ok, arith, Result-cases, inl, inr,
}
use veri_close.Domain.Decisions.{ReconciliationDecision}
use veri_close.Domain.Exceptions.{ExceptionCase}
use veri_close.Domain.Runs.{RunManifest}
use veri_close.Application.Reconcile.{append_decisions, append_exceptions}
use veri_close.Application.Store.{
  ReconciliationRunRecord, Store, append_run, append_decision, append_exception, append_summary,
  insert_row,
}
use veri_close.Application.Store.Grows.{Grows, Grows-refl, Grows-trans, no_rows}

-- No row is lost, and what reviewers have done stands as it was.
pub record Keeps (s t : Store) : Type 0 where
  pub grows : Grows s t
  pub actions : t.actions ≡ s.actions
  pub receipts : t.receipts ≡ s.receipts
  pub reviews : t.reviews ≡ s.reviews

pub Keeps-refl : (s : Store) → Keeps s s
Keeps-refl s = record { grows = Grows-refl s; actions = refl; receipts = refl; reviews = refl }

pub Keeps-trans : (s t u : Store) → Keeps s t → Keeps t u → Keeps s u
Keeps-trans s t u k l = record {
  grows = Grows-trans s t u k.grows l.grows;
  actions = l.actions ∙ k.actions;
  receipts = l.receipts ∙ k.receipts;
  reviews = l.reviews ∙ k.reviews;
}

pub append_decision-Keeps :
    (run_id : String) (d : ReconciliationDecision) (s t : Store)
    → append_decision run_id d s ≡ ok t
    → Keeps s t
unfolding append_decision insert_row
append_decision-Keeps run_id d s t h =
    let now : record s { decisions = record { run_id = run_id; item = d } ∷ s.decisions } ≡ t =
      ground arith in
    subst (Keeps s) now (record {
      grows = (record no_rows { decisions = record { run_id = run_id; item = d } ∷ [] }, refl);
      actions = refl;
      receipts = refl;
      reviews = refl;
    })

pub append_exception-Keeps :
    (run_id : String) (x : ExceptionCase) (s t : Store)
    → append_exception run_id x s ≡ ok t
    → Keeps s t
unfolding append_exception insert_row
append_exception-Keeps run_id x s t h =
    let now : record s { exceptions = record { run_id = run_id; item = x } ∷ s.exceptions } ≡ t =
      ground arith in
    subst (Keeps s) now (record {
      grows = (record no_rows { exceptions = record { run_id = run_id; item = x } ∷ [] }, refl);
      actions = refl;
      receipts = refl;
      reviews = refl;
    })

pub append_summary-Keeps :
    (x : ReconciliationRunRecord) (s t : Store) → append_summary x s ≡ ok t → Keeps s t
unfolding append_summary
append_summary-Keeps x s t h =
    let now : record s { summaries = x ∷ s.summaries } ≡ t = ground arith in
    subst (Keeps s) now (record {
      grows = (record no_rows { summaries = x ∷ [] }, refl);
      actions = refl;
      receipts = refl;
      reviews = refl;
    })

pub append_run-Keeps : (m : RunManifest) (s : Store) → Keeps s (append_run m s)
unfolding append_run
append_run-Keeps m s = record {
  grows = (
    record no_rows { runs = record { run_id = m.run_id; snapshot_number = _; item = m } ∷ [] },
    refl,
  );
  actions = refl;
  receipts = refl;
  reviews = refl;
}

pub append_decisions-Keeps :
    (run_id : String) (ds : List ReconciliationDecision) (s t : Store)
    → append_decisions run_id ds s ≡ ok t
    → Keeps s t
unfolding append_decisions
append_decisions-Keeps run_id [] s t h = subst (Keeps s) (ground arith) (Keeps-refl s)
append_decisions-Keeps run_id (d ∷ ds) s t h = elim (Result-cases (append_decision run_id d s)) [
  | inr (e, f) ↦ absurd (ground arith)
  | inl (u, one) ↦
      Keeps-trans s u t (append_decision-Keeps run_id d s u one)
        (append_decisions-Keeps run_id ds u t (ground arith))
]

pub append_exceptions-Keeps :
    (run_id : String) (xs : List ExceptionCase) (s t : Store)
    → append_exceptions run_id xs s ≡ ok t
    → Keeps s t
unfolding append_exceptions
append_exceptions-Keeps run_id [] s t h = subst (Keeps s) (ground arith) (Keeps-refl s)
append_exceptions-Keeps run_id (x ∷ xs) s t h = elim (Result-cases (append_exception run_id x s)) [
  | inr (e, f) ↦ absurd (ground arith)
  | inl (u, one) ↦
      Keeps-trans s u t (append_exception-Keeps run_id x s u one)
        (append_exceptions-Keeps run_id xs u t (ground arith))
]
