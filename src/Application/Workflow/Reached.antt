-- ===== src/Application/Workflow/Reached.antt =====
-- core/vericlose/application: the operations of the services as steps of the store.
use veri_close.Prelude.{
  ◌≡◌, refl, sym, ap, subst, String, Bool, true, false, Option, List, [], ◌∷◌, ok, inl, inr,
}
use veri_close.Domain.Actions.{ProposedAction, StringPairs, action_step_allowed}
use veri_close.Domain.Enums.{ActionState, ReviewState}
use veri_close.Domain.Events.{DateTime}
use veri_close.Reconciliation.Policy.{ReconciliationPolicy}
use veri_close.Application.Cases.{Recorded, record_review}
use veri_close.Application.Host.{Host}
use veri_close.Application.Reconcile.{run}
use veri_close.Application.Store.{Store}
use veri_close.Application.Store.Grows.{Grows, Grows-refl, no_rows}
use veri_close.Application.Store.Latest.{new_row}
use veri_close.Application.Store.Reviews.{append_action}
use veri_close.Application.Workflow.{ActionView, get_action}
use veri_close.Application.Workflow.Export.{ActionExporter, ExportResult, export}
use veri_close.Application.Workflow.Exported.{export_event, export-IsExported}
use veri_close.Application.Workflow.Found.{get_action-found}
use veri_close.Application.Workflow.Log.{IsLog, IsNext, SameMatter, history, list_actions-history}
use veri_close.Application.Workflow.Propose.{Proposed, propose, proposal_of}
use veri_close.Application.Workflow.Proposed.{proposal_event, propose-IsProposal}
use veri_close.Application.Workflow.Review.{review}
use veri_close.Application.Workflow.Reviewed.{IsReviewed, IsSaved}

IsNext-of_reviewed :
    (run_id : String) (s : Store) (a b : ProposedAction) (older : List ProposedAction)
    → history run_id a.action_id s.actions ≡ a ∷ older
    → IsReviewed a b
    → IsNext b (history run_id b.action_id s.actions)
IsNext-of_reviewed run_id s a b older h w = elim w.state [
  | inl proposed ↦ inl proposed
  | inr allowed ↦ inr (
    a,
    older,
    subst (λ (i : String). history run_id i s.actions ≡ a ∷ older) w.action_id h,
    allowed,
    w.matter,
    w.unfailed,
    λ e. absurd (w.unexported e),
  )
]

-- the history of a found action
found-history :
    (host : Host) (action_id : String) (s : Store) (v : ActionView)
    → IsLog s.actions
    → get_action host action_id s ≡ ok v
    → (older : List ProposedAction) × (history v.run_id v.action.action_id s.actions
        ≡ v.action ∷ older)
found-history host action_id s v l found =
    list_actions-history v.run_id s _ v.action l (get_action-found host action_id s v found).1

appended-IsLog :
    (run_id : String) (a : ProposedAction) (s t : Store)
    → t.actions ≡ new_row run_id a s.actions ∷ s.actions
    → IsNext a (history run_id a.action_id s.actions)
    → IsLog s.actions
    → IsLog t.actions
appended-IsLog run_id a s t e next l = subst IsLog (sym e) (refl, next, l)

-- One operation of the services that returned, or left its store behind as it raised.
pub data ServiceStep (host : Host) (s : Store) : Store → Type 0 where
  proposed :
      (policy : ReconciliationPolicy) (case_id : String) (timestamp : DateTime) {x : Proposed}
      → propose host policy case_id timestamp s ≡ ok x
      → ServiceStep host s x.store
  reviewed :
      (action_id : String) (state : ReviewState) (reviewer_id : String) (comment : Option String)
      (edits : StringPairs) (timestamp : DateTime) {t : Store}
      → (review host action_id state reviewer_id comment edits timestamp s).store ≡ t
      → ServiceStep host s t
  exported :
      (exporter : ActionExporter) (action_id : String) (timestamp : DateTime) {x : ExportResult}
      → export host exporter action_id timestamp s ≡ ok x
      → ServiceStep host s x.store
  recorded :
      (case_id : String) (state : ReviewState) (reviewer_id : String) (comment : Option String)
      (timestamp : DateTime) {x : Recorded}
      → record_review host case_id state reviewer_id comment timestamp s ≡ ok x
      → ServiceStep host s x.store
  reconciled :
      (policy : ReconciliationPolicy) (run_id : String) (timestamp : DateTime) {t : Store}
      → (run host.platform policy run_id timestamp s).store ≡ t
      → ServiceStep host s t

-- What one step does to the log of the actions.
pub record Advances (s t : Store) : Type 0 where
  pub grows : Grows s t
  pub log : IsLog s.actions → IsLog t.actions

exported_allowed : action_step_allowed ActionState.approved ActionState.exported ≡ true
unfolding action_step_allowed
exported_allowed = refl

abbrev matter_state : (a : ProposedAction) (s : ActionState) → SameMatter a (record a { state = s })
matter_state a s = record {
  action_type = refl;
  case_id = refl;
  journal = refl;
  evidence_links = refl;
  created_at = refl;
  protected = λ f fixed. refl;
}

pub propose-Advances :
    (host : Host) (policy : ReconciliationPolicy) (case_id : String) (timestamp : DateTime)
    (s : Store) (x : Proposed)
    → propose host policy case_id timestamp s ≡ ok x
    → Advances s x.store
unfolding proposal_of
propose-Advances host policy case_id timestamp s x h =
    let d = propose-IsProposal host policy case_id timestamp s x h in
    elim d.outcome [
      | inl (v, listed, action, store) ↦
          subst (Advances s) (sym store) (record { grows = Grows-refl s; log = λ l. l })
      | inr (unlisted, w) ↦
          let state : x.action.state ≡ ActionState.proposed =
            ap (λ (a : ProposedAction). a.state) w.action in
          subst (Advances s) (sym w.store) (record {
            grows = (
              record no_rows {
                actions = new_row d.case.run_id x.action s.actions ∷ [];
                audit = proposal_event d.case.run_id x.action ∷ [];
              },
              refl,
            );
            log = λ l. (refl, inl state, l);
          })
    ]

pub export-Advances :
    (host : Host) (exporter : ActionExporter) (action_id : String) (timestamp : DateTime)
    (s : Store) (x : ExportResult)
    → export host exporter action_id timestamp s ≡ ok x
    → Advances s x.store
export-Advances host exporter action_id timestamp s x h =
    let d = export-IsExported host exporter action_id timestamp s x h in
    elim d.outcome [
      | inl (kept, store) ↦
          subst (Advances s) (sym store) (record { grows = Grows-refl s; log = λ l. l })
      | inr (none_kept, w) ↦
          let a : ProposedAction = record d.view.action { state = ActionState.exported } in
          let legal : action_step_allowed d.view.action.state ActionState.exported ≡ true =
            rw w.approved exported_allowed in
          subst (Advances s) (sym w.store) (record {
            grows = (
              record no_rows {
                actions = new_row d.view.run_id a s.actions ∷ [];
                receipts = record { run_id = d.view.run_id; item = x.receipt } ∷ [];
                audit = export_event d.view.run_id x.receipt w.artifact.sha256 ∷ [];
              },
              refl,
            );
            log = λ l.
                let (older, past) = found-history host action_id s d.view l d.found in
                (
                  refl,
                  inr (
                    d.view.action,
                    older,
                    past,
                    legal,
                    matter_state d.view.action ActionState.exported,
                    λ e. cc,
                    λ e. refl,
                  ),
                  l,
                );
          })
    ]

pub saved-Advances :
    (host : Host) (action_id : String) (s t : Store) (view : ActionView) (appended : Bool)
    (a : ProposedAction)
    → get_action host action_id s ≡ ok view
    → IsSaved view appended a s t
    → (appended ≡ true → IsReviewed view.action a)
    → Advances s t
unfolding append_action
saved-Advances host action_id s t view true a found w r = subst (Advances s) (sym w.store) (record {
  grows = (
    record no_rows {
      actions = new_row view.run_id a s.actions ∷ [];
      reviews = record { run_id = view.run_id; item = w.review } ∷ [];
      audit = w.event ∷ [];
    },
    refl,
  );
  log = λ l.
      let (older, past) = found-history host action_id s view l found in
      (refl, IsNext-of_reviewed view.run_id s view.action a older past (r refl), l);
})
saved-Advances host action_id s t view false a found w r =
    subst (Advances s) (sym w.store) (record {
      grows = (
        record no_rows {
          reviews = record { run_id = view.run_id; item = w.review } ∷ [];
          audit = w.event ∷ [];
        },
        refl,
      );
      log = λ l. l;
    })
