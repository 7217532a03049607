-- ===== src/Application/Reconcile/Kept.antt =====
-- core/vericlose/application/run_reconciliation.py: the tables that a run of the kernel leaves alone.
use veri_close.Prelude.{
  ◌≡◌, refl, sym, subst, String, str_append, str_ℕ, length, List, [], ◌∷◌, ok, err, Error, arith,
  Result-cases, Option-cases, Bool-cases, inl, inr,
}
use veri_close.Domain.Enums.{RunState}
use veri_close.Domain.Events.{DateTime}
use veri_close.Domain.Runs.{RunManifest, transition}
use veri_close.Reconciliation.Pipeline.{KernelResult, reconcile}
use veri_close.Reconciliation.Platform.{Platform}
use veri_close.Reconciliation.Policy.{ReconciliationPolicy}
use veri_close.Application.Audit.{AuditEvent, audit_event}
use veri_close.Application.Reconcile.{
  Started, Completed, is_reconciling, audit, start_run, append_decisions, append_exceptions,
  summary_of, completed_details, save_run, complete_run, mark_failed, after_failure, run,
}
use veri_close.Application.Store.{
  ReconciliationRunRecord, Store, append_run, append_summary, get_run, list_events,
}
use veri_close.Application.Store.Appends.{append_audit-inv}
use veri_close.Application.Store.Grows.{no_rows}
use veri_close.Application.Store.Reviews.{append_audit}
use veri_close.Application.Reconcile.Inserted.{
  Keeps, Keeps-refl, Keeps-trans, append_summary-Keeps, append_run-Keeps, append_decisions-Keeps,
  append_exceptions-Keeps,
}

audit-Keeps :
    (suffix run_id event_type : String) (timestamp : DateTime) (details : List (String × String))
    (s t : Store)
    → audit suffix run_id event_type timestamp details s ≡ ok t
    → Keeps s t
unfolding audit
audit-Keeps suffix run_id event_type timestamp details s t h =
    let e : AuditEvent = record {
      audit_id = str_append run_id suffix;
      run_id = run_id;
      event_type = event_type;
      occurred_at = timestamp;
      details = details;
    } in
    elim (Result-cases (audit_event e)) [
      | inr (er, f) ↦ absurd (ground arith)
      | inl (event, built) ↦
          let last : append_audit event s ≡ ok t = ground arith in
          subst (Keeps s) (sym (append_audit-inv event s t last)) (record {
            grows = (record no_rows { audit = event ∷ [] }, refl);
            actions = refl;
            receipts = refl;
            reviews = refl;
          })
    ]

-- a logged snapshot of the manifest
snapshot-Keeps :
    (suffix run_id event_type : String) (timestamp : DateTime) (details : List (String × String))
    (m : RunManifest) (s t : Store)
    → audit suffix run_id event_type timestamp details (append_run m s) ≡ ok t
    → Keeps s t
snapshot-Keeps suffix run_id event_type timestamp details m s t h =
    Keeps-trans s (append_run m s) t (append_run-Keeps m s)
      (audit-Keeps suffix run_id event_type timestamp details (append_run m s) t h)

start_run-Keeps :
    (policy : ReconciliationPolicy) (run_id : String) (timestamp : DateTime) (s : Store)
    (x : Started)
    → start_run policy run_id timestamp s ≡ ok x
    → Keeps s x.store
unfolding start_run
start_run-Keeps policy run_id timestamp s x h = elim (Option-cases (get_run run_id s)) [
  | inl n ↦ absurd (ground arith)
  | inr (m, found) ↦ elim (Result-cases (transition m RunState.reconciling)) [
    | inr (er, f) ↦ absurd (ground arith)
    | inl (r, moved) ↦
        elim (Result-cases (
          audit ":reconciliation-started" run_id "RECONCILIATION_STARTED" timestamp
            (("event_count", str_ℕ (length (list_events run_id s))) ∷ []) (append_run r s))) [
              | inr (er, f) ↦ absurd (ground arith)
              | inl (t, logged) ↦
                  let now : t ≡ x.store = ground arith in
                  subst (Keeps s) now (snapshot-Keeps _ _ _ _ _ r s t logged)
            ]
  ]
]

save_run-Keeps :
    (timestamp : DateTime) (kernel : KernelResult) (summary : ReconciliationRunRecord)
    (m : RunManifest) (s t : Store)
    → save_run timestamp kernel summary m s ≡ ok t
    → Keeps s t
unfolding save_run
save_run-Keeps timestamp kernel summary m s t h =
    elim (Result-cases (append_decisions summary.run_id kernel.decisions s)) [
      | inr (er, f) ↦ absurd (ground arith)
      | inl (a, da) ↦ elim (Result-cases (append_exceptions summary.run_id kernel.exceptions a)) [
        | inr (er, f) ↦ absurd (ground arith)
        | inl (b, db) ↦ elim (Result-cases (append_summary summary b)) [
          | inr (er, f) ↦ absurd (ground arith)
          | inl (c, dc) ↦
              Keeps-trans s a t (append_decisions-Keeps summary.run_id kernel.decisions s a da) (
                Keeps-trans a b t (append_exceptions-Keeps summary.run_id kernel.exceptions a b db)
                  (Keeps-trans b c t (append_summary-Keeps summary b c dc) (
                    snapshot-Keeps ":reconciliation-completed" summary.run_id
                      "RECONCILIATION_COMPLETED" timestamp (completed_details summary) m c t
                      (ground arith))))
        ]
      ]
    ]

complete_run-Keeps :
    (platform : Platform) (policy : ReconciliationPolicy) (run_id : String) (timestamp : DateTime)
    (started : Started) (x : Completed)
    → complete_run platform policy run_id timestamp started ≡ ok x
    → Keeps started.store x.store
unfolding complete_run
complete_run-Keeps platform policy run_id timestamp started x h =
    elim (Result-cases (reconcile platform started.events policy)) [
      | inr (er, f) ↦ absurd (ground arith)
      | inl (kernel, k) ↦ elim (Result-cases (transition started.manifest RunState.completed)) [
        | inr (er, f) ↦ absurd (ground arith)
        | inl (m, moved) ↦
            let summary = summary_of policy run_id kernel in
            elim (Result-cases (save_run timestamp kernel summary m started.store)) [
              | inr (er, f) ↦ absurd (ground arith)
              | inl (t, saved) ↦
                  let now : t ≡ x.store = ground arith in
                  subst (Keeps started.store) now
                    (save_run-Keeps timestamp kernel summary m started.store t saved)
            ]
      ]
    ]

mark_failed-Keeps :
    (m : RunManifest) (timestamp : DateTime) (s t : Store)
    → mark_failed m timestamp s ≡ ok t
    → Keeps s t
unfolding mark_failed
mark_failed-Keeps m timestamp s t h = elim (Option-cases (get_run m.run_id s)) [
  | inl n ↦ subst (Keeps s) (ground arith) (Keeps-refl s)
  | inr (current, found) ↦ elim (Bool-cases (is_reconciling current.state)) [
    | inr done ↦ subst (Keeps s) (ground arith) (Keeps-refl s)
    | inl going ↦ elim (Result-cases (transition current RunState.failed)) [
      | inr (er, f) ↦ absurd (ground arith)
      | inl (failed, moved) ↦
          snapshot-Keeps ":reconciliation-failed" m.run_id "RECONCILIATION_FAILED" timestamp []
            failed s t (ground arith)
    ]
  ]
]

after_failure-Keeps :
    (timestamp : DateTime) (started : Started) (e : Error)
    → Keeps started.store (after_failure timestamp started e).store
unfolding after_failure
after_failure-Keeps timestamp started e =
    elim (Result-cases (mark_failed started.manifest timestamp started.store)) [
      | inl (t, marked) ↦
          let now : t ≡ (after_failure timestamp started e).store = ground arith in
          subst (Keeps started.store) now
            (mark_failed-Keeps started.manifest timestamp started.store t marked)
      | inr (e', f) ↦
          let now : started.store ≡ (after_failure timestamp started e).store = ground arith in
          subst (Keeps started.store) now (Keeps-refl started.store)
    ]

-- The three ways of a run: not started, done, and broken off.
module _ (platform : Platform) (policy : ReconciliationPolicy) (run_id : String)
    (timestamp : DateTime) (s : Store) where
  pub run-refused :
      (e : Error)
      → start_run policy run_id timestamp s ≡ err e
      → run platform policy run_id timestamp s ≡ record { result = err e; store = s }
  unfolding run
  run-refused e h = ground arith

  pub run-done :
      (started : Started) (x : Completed)
      → start_run policy run_id timestamp s ≡ ok started
      → complete_run platform policy run_id timestamp started ≡ ok x
      → run platform policy run_id timestamp s ≡ record { result = ok x.result; store = x.store }
  unfolding run
  run-done started x h k = ground arith

  pub run-broken :
      (started : Started) (e : Error)
      → start_run policy run_id timestamp s ≡ ok started
      → complete_run platform policy run_id timestamp started ≡ err e
      → run platform policy run_id timestamp s ≡ after_failure timestamp started e
  unfolding run
  run-broken started e h k = ground arith

-- Whatever a run of the kernel comes to, done or failed, at its start or half-way, no row of any
-- table is changed or removed, and the actions, their receipts and the reviews stand as they were.
pub run-Keeps :
    (platform : Platform) (policy : ReconciliationPolicy) (run_id : String) (timestamp : DateTime)
    (s : Store)
    → Keeps s (run platform policy run_id timestamp s).store
run-Keeps platform policy run_id timestamp s =
    elim (Result-cases (start_run policy run_id timestamp s)) [
      | inr (e, f) ↦ rw (run-refused platform policy run_id timestamp s e f) (Keeps-refl s)
      | inl (started, b) ↦
          let k = start_run-Keeps policy run_id timestamp s started b in
          elim (Result-cases (complete_run platform policy run_id timestamp started)) [
            | inl (x, done) ↦ rw (run-done platform policy run_id timestamp s started x b done) (
                Keeps-trans s started.store x.store k
                  (complete_run-Keeps platform policy run_id timestamp started x done))
            | inr (e, f) ↦
                rw (run-broken platform policy run_id timestamp s started e b f)
                  (Keeps-trans s started.store _ k (after_failure-Keeps timestamp started e))
          ]
    ]
