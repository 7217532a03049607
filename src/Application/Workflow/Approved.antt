-- ===== src/Application/Workflow/Approved.antt =====
-- core/vericlose/application: what holds of every store that the services can leave.
use veri_close.Prelude.{
  ◌≡◌, ◌∙◌, refl, sym, ap, ◌≢◌, All, subst, String, str_append, true, List, [], ◌∷◌, ◌++◌, Option,
  ok, arith, Result-cases, inl, inr, non_empty, ◌||◌,
}
use veri_close.Domain.Actions.{ProposedAction, StringPairs, action_step_allowed, review_decision}
use veri_close.Domain.Enums.{ActionState, ReviewState}
use veri_close.Domain.Events.{DateTime}
use veri_close.Reconciliation.Policy.{ReconciliationPolicy}
use veri_close.Application.Audit.{audit_event}
use veri_close.Application.Cases.{Recorded, record_review, get_case, review_state_value}
use veri_close.Application.Host.{Host, digest_20}
use veri_close.Application.Reconcile.{run}
use veri_close.Application.Reconcile.Kept.{run-Keeps}
use veri_close.Application.Store.{Snapshot, Store}
use veri_close.Application.Store.Appends.{append_audit-inv, append_review-inv}
use veri_close.Application.Store.Grows.{Grows, Grows-refl, Grows-trans, no_rows}
use veri_close.Application.Store.Reviews.{append_review, append_audit}
use veri_close.Application.Workflow.Log.{IsLog, history, history-IsNext, history-unfailed}
use veri_close.Application.Workflow.Judged.{review_store-IsKept}
use veri_close.Application.Workflow.Reached.{
  ServiceStep, proposed, reviewed, exported, recorded, reconciled, Advances, propose-Advances,
  export-Advances, saved-Advances,
}
use veri_close.Application.Workflow.Review.{next_state, is_given, review_store, review}

review-Advances :
    (host : Host) (action_id : String) (state : ReviewState) (reviewer_id : String)
    (comment : Option String) (edits : StringPairs) (timestamp : DateTime) (s : Store)
    → Advances s (review host action_id state reviewer_id comment edits timestamp s).store
unfolding review
review-Advances host action_id state reviewer_id comment edits timestamp s =
    let left = (review host action_id state reviewer_id comment edits timestamp s).store in
    elim (Result-cases (review_store host action_id state reviewer_id comment edits timestamp s)) [
      | inr (e, f) ↦
          let now : s ≡ left = ground arith in
          subst (Advances s) now (record { grows = Grows-refl s; log = λ l. l })
      | inl (t, done) ↦
          let now : t ≡ left = ground arith in
          let d =
            review_store-IsKept host action_id state reviewer_id comment edits timestamp s t done in
          subst (Advances s) now (elim d.outcome [
            | inl (given, reached, store) ↦
                subst (Advances s) (sym store) (record { grows = Grows-refl s; log = λ l. l })
            | inr (a, w, reached, r) ↦
                saved-Advances host action_id s t d.view
                  (non_empty edits || is_given (next_state state)) a d.found w r
          ])
    ]

record_review-Advances :
    (host : Host) (case_id : String) (state : ReviewState) (reviewer_id : String)
    (comment : Option String) (timestamp : DateTime) (s : Store) (x : Recorded)
    → record_review host case_id state reviewer_id comment timestamp s ≡ ok x
    → Advances s x.store
unfolding record_review
record_review-Advances host case_id state reviewer_id comment timestamp s x h =
    elim (Result-cases (get_case host case_id s)) [
      | inr (e, f) ↦ absurd (ground arith)
      | inl (case, found) ↦
          let identity =
            digest_20 host (case.run_id ∷ case_id ∷ reviewer_id ∷ host.isoformat timestamp ∷ []) in
          elim (Result-cases (
            review_decision (record {
              review_id = str_append "review_" identity;
              action_id = case_id;
              state = state;
              reviewer_id = reviewer_id;
              reviewed_at = timestamp;
              comment = comment;
            }))) [
              | inr (e, f) ↦ absurd (ground arith)
              | inl (r, built) ↦ elim (Result-cases (append_review case.run_id r s)) [
                | inr (e, f) ↦ absurd (ground arith)
                | inl (t, appended) ↦
                    elim (Result-cases (
                      audit_event (record {
                        audit_id = str_append "audit_" identity;
                        run_id = case.run_id;
                        event_type = "PRELIMINARY_REVIEW_RECORDED";
                        occurred_at = timestamp;
                        details =
                            ("case_id", case_id)
                            ∷ ("state", review_state_value state)
                            ∷ ("reviewer_id", reviewer_id)
                            ∷ [];
                      }))) [
                        | inr (e, f) ↦ absurd (ground arith)
                        | inl (event, logged) ↦
                            let last : append_audit event t ≡ ok x.store = ground arith in
                            let store =
                              append_audit-inv event t x.store last
                              ∙ rw (append_review-inv case.run_id r s t appended) refl in
                            subst (Advances s) (sym store) (record {
                              grows = (
                                record no_rows {
                                  reviews = record { run_id = case.run_id; item = r } ∷ [];
                                  audit = event ∷ [];
                                },
                                refl,
                              );
                              log = λ l. l;
                            })
                      ]
              ]
            ]
    ]

run-Advances :
    (host : Host) (policy : ReconciliationPolicy) (run_id : String) (timestamp : DateTime)
    (s : Store)
    → Advances s (run host.platform policy run_id timestamp s).store
run-Advances host policy run_id timestamp s =
    let k = run-Keeps host.platform policy run_id timestamp s in
    record { grows = k.grows; log = λ l. subst IsLog (sym k.actions) l }

ServiceStep-Advances : (host : Host) (s t : Store) → ServiceStep host s t → Advances s t
ServiceStep-Advances host s t (proposed policy case_id timestamp {x = x} h) =
    propose-Advances host policy case_id timestamp s x h
ServiceStep-Advances host s t (reviewed action_id state reviewer_id comment edits timestamp h) =
    subst (Advances s) h
      (review-Advances host action_id state reviewer_id comment edits timestamp s)
ServiceStep-Advances host s t (exported exporter action_id timestamp {x = x} h) =
    export-Advances host exporter action_id timestamp s x h
ServiceStep-Advances host s t (recorded case_id state reviewer_id comment timestamp {x = x} h) =
    record_review-Advances host case_id state reviewer_id comment timestamp s x h
ServiceStep-Advances host s t (reconciled policy run_id timestamp h) =
    subst (Advances s) h (run-Advances host policy run_id timestamp s)

-- any number of operations
pub data ServiceReach (host : Host) (s : Store) : Store → Type 0 where
  here : ServiceReach host s s
  next : {t u : Store} → ServiceReach host s t → ServiceStep host t u → ServiceReach host s u

-- Whatever operations of the services are called, in any order and with any arguments, those that
-- fail included, every row that a table had stands unchanged below the newer ones.
pub ServiceReach-Grows : (host : Host) (s t : Store) → ServiceReach host s t → Grows s t
ServiceReach-Grows host s t here = Grows-refl s
ServiceReach-Grows host s t (next {t = m} r st) =
    Grows-trans s m t (ServiceReach-Grows host s m r) (ServiceStep-Advances host m t st).grows

ServiceReach-IsLog :
    (host : Host) (s t : Store) → ServiceReach host s t → IsLog s.actions → IsLog t.actions
ServiceReach-IsLog host s t here l = l
ServiceReach-IsLog host s t (next {t = m} r st) l =
    (ServiceStep-Advances host m t st).log (ServiceReach-IsLog host s m r l)

IsLog-below : (newer rows : List (Snapshot ProposedAction)) → IsLog (newer ++ rows) → IsLog rows
IsLog-below [] rows l = l
IsLog-below (r ∷ newer) rows (numbered, step, below) = IsLog-below newer rows below

before_export :
    (s : ActionState) → action_step_allowed s ActionState.exported ≡ true → s ≡ ActionState.approved
unfolding action_step_allowed
before_export ActionState.approved h = refl
before_export s h = cc

before_approval :
    (s : ActionState)
    → action_step_allowed s ActionState.approved ≡ true
    → s ≢ ActionState.failed
    → s ≡ ActionState.proposed
unfolding action_step_allowed
before_approval ActionState.proposed h unfailed = refl
before_approval ActionState.failed h unfailed = absurd (unfailed refl)
before_approval s h unfailed = cc

-- In a store that the services have left, starting with no actions, every EXPORTED snapshot of an
-- action stands directly on an APPROVED snapshot of the same action, which stands directly on a
-- PROPOSED one. Between the approval and the export nothing but the state changes: every field and
-- the whole payload are those of the approved snapshot.
pub ServiceReach-approved :
    (host : Host) (s t : Store) (newer rows : List (Snapshot ProposedAction))
    (r : Snapshot ProposedAction)
    → ServiceReach host s t
    → s.actions ≡ []
    → t.actions ≡ newer ++ r ∷ rows
    → r.item.state ≡ ActionState.exported
    → (approved : ProposedAction) × (proposal : ProposedAction) × (older : List ProposedAction)
      × (history r.run_id r.item.action_id rows ≡ approved ∷ proposal ∷ older)
      × (proposal.state ≡ ActionState.proposed)
      × (approved.state ≡ ActionState.approved)
      × (record approved { state = ActionState.exported } ≡ r.item)
ServiceReach-approved host s t newer rows r reach empty split state =
    let l : IsLog t.actions = ServiceReach-IsLog host s t reach (subst IsLog (sym empty) tt) in
    let (numbered, step, below) = IsLog-below newer (r ∷ rows) (subst IsLog split l) in
    elim step [
      | inl proposed_state ↦ absurd (ground arith)
      | inr (approved, past, all_past, legal, matter, passed, as_it_is) ↦
          let approved_state = before_export approved.state (
            subst (λ (x : ActionState). action_step_allowed approved.state x ≡ true) state legal) in
          elim (history-IsNext r.run_id r.item.action_id rows approved past below all_past) [
            | inl proposed_state ↦ absurd (ground arith)
            | inr (proposal, older, before, allowed, same, unfailed, other) ↦
                let snapshots = all_past ∙ ap (◌∷◌ approved) before in
                let unfailed' =
                  subst (All (λ (a : ProposedAction). a.state ≢ ActionState.failed)) snapshots
                    (history-unfailed r.run_id r.item.action_id rows below) in
                let proposed_state =
                  before_approval proposal.state
                    (subst (λ (x : ActionState). action_step_allowed proposal.state x ≡ true)
                      approved_state allowed)
                    unfailed'.1.0 in
                (
                  approved,
                  proposal,
                  older,
                  snapshots,
                  proposed_state,
                  approved_state,
                  as_it_is state,
                )
          ]
    ]
