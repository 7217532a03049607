-- ===== src/Application/Reconcile/Ended.antt =====
-- core/vericlose/application/run_reconciliation.py: a run that has started ends COMPLETED or FAILED.
use mathlib.Core.Bool.{false≢true}
use veri_close.Prelude.{
  ◌≡◌, ◌∙◌, refl, sym, ap, subst, String, str_append, str_eq, true, false, some, List, [], ◌∷◌, ok,
  err, Error, arith, any, Result-cases, Bool-cases, inl, inr, eq_iff, str_eq→eq, is_blank,
}
use veri_close.Domain.Enums.{RunState}
use veri_close.Domain.Events.{DateTime}
use veri_close.Domain.Runs.{RunManifest, run_manifest, transition, run_step_allowed}
use veri_close.Reconciliation.Pipeline.{KernelResult, reconcile}
use veri_close.Reconciliation.Platform.{Platform}
use veri_close.Reconciliation.Policy.{ReconciliationPolicy}
use veri_close.Application.Reconcile.{
  Started, Completed, ReconcileRunResult, audit, start_run, summary_of, completed_details, save_run,
  complete_run, mark_failed, after_failure, run, append_decisions, append_exceptions,
}
use veri_close.Application.Reconcile.Finished.{
  IsStarted, get_run-append_run, get_run-same, run_manifest-state, audit-logs, audit-inv,
  start_run-IsStarted, transition-valid, append_left_cancel, run_event, logged_as,
}
use veri_close.Application.Reconcile.Stored.{IsStored, save_run-IsStored}
use veri_close.Application.Reconcile.Kept.{run-refused, run-done, run-broken}
use veri_close.Application.Store.{Store, append_run, append_summary, get_run, list_events}
use veri_close.Application.Workflow.Review.{Outcome}

-- a snapshot that was logged is the manifest of its run
logged-get_run :
    (suffix event_type : String) (timestamp : DateTime) (details : List (String × String))
    (m : RunManifest) (s t : Store) (run_id : String)
    → audit suffix run_id event_type timestamp details (append_run m s) ≡ ok t
    → get_run m.run_id t ≡ some m
logged-get_run suffix event_type timestamp details m s t run_id h =
    let (text, aware, store) =
      audit-inv suffix run_id event_type timestamp details (append_run m s) t h in
    get_run-same m.run_id (append_run m s) t (ap (λ (u : Store). u.runs) store)
    ∙ get_run-append_run m s

-- Of a second transaction that committed.
pub record IsCompleted (platform : Platform) (policy : ReconciliationPolicy) (run_id : String)
    (started : Started) (x : Completed) : Type 0 where
  pub kernel : reconcile platform started.events policy ≡ ok x.result.kernel
  pub summary : x.result.summary ≡ summary_of policy run_id x.result.kernel
  pub manifest : x.result.manifest ≡ record started.manifest { state = RunState.completed }
  pub listed : get_run x.result.manifest.run_id x.store ≡ some x.result.manifest
  pub stored : IsStored run_id x.result.kernel x.result.summary started.store x.store

save_run-get_run :
    (timestamp : DateTime) (kernel : KernelResult) (policy : ReconciliationPolicy) (run_id : String)
    (m : RunManifest) (s t : Store)
    → save_run timestamp kernel (summary_of policy run_id kernel) m s ≡ ok t
    → get_run m.run_id t ≡ some m
unfolding save_run
save_run-get_run timestamp kernel policy run_id m s t h =
    let summary = summary_of policy run_id kernel in
    elim (Result-cases (append_decisions summary.run_id kernel.decisions s)) [
      | inr (er, f) ↦ absurd (ground arith)
      | inl (a, da) ↦ elim (Result-cases (append_exceptions summary.run_id kernel.exceptions a)) [
        | inr (er, f) ↦ absurd (ground arith)
        | inl (b, db) ↦ elim (Result-cases (append_summary summary b)) [
          | inr (er, f) ↦ absurd (ground arith)
          | inl (c, dc) ↦
              logged-get_run ":reconciliation-completed" "RECONCILIATION_COMPLETED" timestamp
                (completed_details summary) m c t summary.run_id (ground arith)
        ]
      ]
    ]

summary_of-run_id :
    (policy : ReconciliationPolicy) (run_id : String) (kernel : KernelResult)
    → (summary_of policy run_id kernel).run_id ≡ run_id
unfolding summary_of
summary_of-run_id policy run_id kernel = refl

complete_run-IsCompleted :
    (platform : Platform) (policy : ReconciliationPolicy) (run_id : String) (timestamp : DateTime)
    (started : Started) (x : Completed)
    → complete_run platform policy run_id timestamp started ≡ ok x
    → IsCompleted platform policy run_id started x
unfolding complete_run
complete_run-IsCompleted platform policy run_id timestamp started x h =
    elim (Result-cases (reconcile platform started.events policy)) [
      | inr (er, f) ↦ absurd (ground arith)
      | inl (kernel, k) ↦ elim (Result-cases (transition started.manifest RunState.completed)) [
        | inr (er, f) ↦ absurd (ground arith)
        | inl (m, moved) ↦
            let summary = summary_of policy run_id kernel in
            elim (Result-cases (save_run timestamp kernel summary m started.store)) [
              | inr (er, f) ↦ absurd (ground arith)
              | inl (t, saved) ↦
                  let now : record {
                    result = record { manifest = m; kernel = kernel; summary = summary };
                    store = t;
                  }
                      ≡ x =
                    ground arith in
                  subst (IsCompleted platform policy run_id started) now (record {
                    kernel = k;
                    summary = refl;
                    manifest = (transition-valid started.manifest m RunState.completed moved).0;
                    listed =
                        save_run-get_run timestamp kernel policy run_id m started.store t saved;
                    stored =
                        subst (λ (i : String). IsStored i kernel summary started.store t)
                          (summary_of-run_id policy run_id kernel)
                          (save_run-IsStored timestamp kernel summary m started.store t saved);
                  })
            ]
      ]
    ]

transition-succeeds :
    (m n : RunManifest) (next : RunState)
    → run_step_allowed m.state next ≡ true
    → run_manifest (record m { state = next }) ≡ ok n
    → transition m next ≡ ok n
unfolding transition
transition-succeeds m n next legal valid = ground arith

may_fail : run_step_allowed RunState.reconciling RunState.failed ≡ true
unfolding run_step_allowed
may_fail = refl

abbrev pub failed_id : String → String
failed_id run_id = str_append run_id ":reconciliation-failed"

other_event :
    (run_id id : String)
    → id ≡ str_append run_id ":reconciliation-started"
    → str_eq id (failed_id run_id) ≡ false
other_event run_id id e = elim (Bool-cases (str_eq id (failed_id run_id))) [
  | inr ne ↦ ne
  | inl same ↦
      let clash =
        append_left_cancel run_id ":reconciliation-started" ":reconciliation-failed"
          (sym e ∙ str_eq→eq id (failed_id run_id) same) in
      absurd (false≢true ((eq_iff ":reconciliation-started" ":reconciliation-failed").1 clash))
]

-- Of a run that has been marked as failed: nothing of the kernel's result is kept.
pub record IsFailed (m : RunManifest) (s t : Store) : Type 0 where
  pub listed : get_run m.run_id t ≡ some (record m { state = RunState.failed })
  pub decisions : t.decisions ≡ s.decisions
  pub exceptions : t.exceptions ≡ s.exceptions
  pub summaries : t.summaries ≡ s.summaries

module _ (m : RunManifest) (timestamp : DateTime) (s : Store) where
  abbrev reconciling : RunManifest
  reconciling = record m { state = RunState.reconciling }

  abbrev failed : RunManifest
  failed = record m { state = RunState.failed }

  marked :
      (t : Store)
      → get_run m.run_id t ≡ some reconciling
      → run_manifest reconciling ≡ ok reconciling
      → is_blank m.run_id ≡ false
      → timestamp.aware ≡ true
      → any (logged_as m.run_id (failed_id m.run_id)) t.audit ≡ false
      → (u : Store) × (mark_failed reconciling timestamp t ≡ ok u)
        × (u ≡ record (append_run failed t) {
          audit =
              run_event ":reconciliation-failed" m.run_id "RECONCILIATION_FAILED" timestamp []
              ∷ t.audit;
        })
  unfolding mark_failed is_blank append_run
  marked t listed valid text aware new_id =
      let moved =
        transition-succeeds reconciling failed RunState.failed may_fail
          (run_manifest-state m reconciling RunState.reconciling RunState.failed valid) in
      let logs =
        audit-logs ":reconciliation-failed" m.run_id "RECONCILIATION_FAILED" timestamp []
          (append_run failed t) text refl aware new_id in
      (_, ground arith, refl)

-- How a call of `run` for the manifest `m` of a store `s` ends.
pub data RunEnd (platform : Platform) (policy : ReconciliationPolicy) (m : RunManifest)
    (timestamp : DateTime) (s : Store) (o : Outcome ReconcileRunResult) : Type 0 where
  refused :
      (e : Error)
      → start_run policy m.run_id timestamp s ≡ err e
      → o.result ≡ err e
      → o.store ≡ s
      → RunEnd platform policy m timestamp s o
  completed :
      (x : ReconcileRunResult)
      → o.result ≡ ok x
      → m.state ≡ RunState.validated
      → reconcile platform (list_events m.run_id s) policy ≡ ok x.kernel
      → x.summary ≡ summary_of policy m.run_id x.kernel
      → x.manifest ≡ record m { state = RunState.completed }
      → get_run m.run_id o.store ≡ some x.manifest
      → IsStored m.run_id x.kernel x.summary s o.store
      → RunEnd platform policy m timestamp s o
  broken :
      (e : Error) (started : Started)
      → start_run policy m.run_id timestamp s ≡ ok started
      → complete_run platform policy m.run_id timestamp started ≡ err e
      → o.result ≡ err e
      → m.state ≡ RunState.validated
      → IsFailed m s o.store
      → RunEnd platform policy m timestamp s o

-- the first transaction leaves the tables of results alone
started_store :
    (m : RunManifest) (timestamp : DateTime) (s : Store) (st : Started) (x : Completed)
    → IsStarted m m.run_id timestamp s st
    → IsStored m.run_id x.result.kernel x.result.summary st.store x.store
    → IsStored m.run_id x.result.kernel x.result.summary s x.store
unfolding append_run
started_store m timestamp s st x b w = record {
  decisions = w.decisions ∙ rw b.store refl;
  exceptions = w.exceptions ∙ rw b.store refl;
  summaries = w.summaries ∙ rw b.store refl;
}

completed-RunEnd :
    (platform : Platform) (policy : ReconciliationPolicy) (m : RunManifest) (timestamp : DateTime)
    (s : Store) (st : Started) (x : Completed)
    → IsStarted m m.run_id timestamp s st
    → IsCompleted platform policy m.run_id st x
    → RunEnd platform policy m timestamp s (record { result = ok x.result; store = x.store })
completed-RunEnd platform policy m timestamp s st x b c =
    let manifest : x.result.manifest ≡ record m { state = RunState.completed } =
      c.manifest ∙ ap (λ (n : RunManifest). record n { state = RunState.completed }) b.manifest in
    let run_id : x.result.manifest.run_id ≡ m.run_id =
      ap (λ (n : RunManifest). n.run_id) manifest in
    completed x.result refl b.validated
      (subst (λ es. reconcile platform es policy ≡ ok x.result.kernel) b.events c.kernel) c.summary
      manifest (subst (λ (i : String). get_run i x.store ≡ some x.result.manifest) run_id c.listed)
      (started_store m timestamp s st x b c.stored)

after_failure-marked :
    (timestamp : DateTime) (st : Started) (e : Error) (u : Store)
    → mark_failed st.manifest timestamp st.store ≡ ok u
    → after_failure timestamp st e ≡ record { result = err e; store = u }
unfolding after_failure
after_failure-marked timestamp st e u h = ground arith

broken-RunEnd :
    (platform : Platform) (policy : ReconciliationPolicy) (m : RunManifest) (timestamp : DateTime)
    (s : Store) (st : Started) (e : Error)
    → any (logged_as m.run_id (failed_id m.run_id)) s.audit ≡ false
    → IsStarted m m.run_id timestamp s st
    → start_run policy m.run_id timestamp s ≡ ok st
    → complete_run platform policy m.run_id timestamp st ≡ err e
    → RunEnd platform policy m timestamp s (after_failure timestamp st e)
unfolding append_run any
broken-RunEnd platform policy m timestamp s st e unlogged b h f =
    let r : RunManifest = record m { state = RunState.reconciling } in
    let t : Store = record (append_run r s) { audit = b.event ∷ s.audit } in
    let store : st.store ≡ t = b.store ∙ rw b.manifest refl in
    let listed : get_run m.run_id t ≡ some r =
      get_run-same m.run_id (append_run r s) t refl ∙ get_run-append_run r s in
    let valid : run_manifest r ≡ ok r = b.valid ∙ rw b.manifest refl in
    let new_id : any (logged_as m.run_id (failed_id m.run_id)) t.audit ≡ false =
      ground (arith, other_event m.run_id b.event.audit_id b.named) in
    let (u, done, now) = marked m timestamp s t listed valid b.text b.aware new_id in
    let done' : mark_failed st.manifest timestamp st.store ≡ ok u = rw b.manifest (rw store done) in
    let n : RunManifest = record m { state = RunState.failed } in
    let fails : IsFailed m s u = subst (IsFailed m s) (sym now) (record {
      listed = get_run-same m.run_id (append_run n t) _ refl ∙ get_run-append_run n t;
      decisions = refl;
      exceptions = refl;
      summaries = refl;
    }) in
    subst (RunEnd platform policy m timestamp s) (sym (after_failure-marked timestamp st e u done'))
      (broken e st h f refl b.validated fails)

-- A call of `run` for a run that no failure has been logged of is refused, where its first transaction
-- fails, and leaves the store as it was, in whatever state the run is; or the run, which was VALIDATED, is COMPLETED, and the store has
-- each decision and each exception of the kernel's result on its events, and the summary with the
-- counts of that result, as new rows; or it is FAILED, where the kernel or the second
-- transaction fails, and no decision, exception or summary has been stored. A run that the call starts does not stay RECONCILING.
pub run-ends :
    (platform : Platform) (policy : ReconciliationPolicy) (m : RunManifest) (timestamp : DateTime)
    (s : Store)
    → get_run m.run_id s ≡ some m
    → any (logged_as m.run_id (failed_id m.run_id)) s.audit ≡ false
    → RunEnd platform policy m timestamp s (run platform policy m.run_id timestamp s)
run-ends platform policy m timestamp s found unlogged =
    elim (Result-cases (start_run policy m.run_id timestamp s)) [
      | inr (e, f) ↦
          rw (run-refused platform policy m.run_id timestamp s e f) (refused e f refl refl)
      | inl (st, h) ↦
          let b = start_run-IsStarted policy m.run_id timestamp s st m found h in
          elim (Result-cases (complete_run platform policy m.run_id timestamp st)) [
            | inl (x, k) ↦ rw (run-done platform policy m.run_id timestamp s st x h k) (
                completed-RunEnd platform policy m timestamp s st x b
                  (complete_run-IsCompleted platform policy m.run_id timestamp st x k))
            | inr (e, f) ↦
                rw (run-broken platform policy m.run_id timestamp s st e h f)
                  (broken-RunEnd platform policy m timestamp s st e unlogged b h f)
          ]
    ]
