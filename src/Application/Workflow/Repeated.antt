-- ===== src/Application/Workflow/Repeated.antt =====
-- core/vericlose/application/actions.py: a second proposal for the same case.
use veri_close.Prelude.{
  ◌≡◌, ◌∙◌, refl, sym, subst, String, str_eq, Bool, true, none, some, List, [], ◌∷◌, ok, arith,
  first, Option-cases, inl, inr, eq_iff,
}
use veri_close.Domain.Actions.{ProposedAction}
use veri_close.Domain.Events.{DateTime}
use veri_close.Domain.Exceptions.{ExceptionCase}
use veri_close.Reconciliation.Policy.{ReconciliationPolicy}
use veri_close.Application.Audit.{AuditEvent}
use veri_close.Application.Cases.{CaseView, get_case, search_cases, list_cases}
use veri_close.Application.Host.{Host}
use veri_close.Application.Store.{
  Snapshot, Store, list_ids, get_run, list_decisions, list_exceptions, list_events,
}
use veri_close.Application.Store.Latest.{HasAppended, first-list_actions_new}
use veri_close.Application.Store.Reviews.{list_reviews, list_actions, list_receipts}
use veri_close.Application.Workflow.{ActionView, action_view, list_for_run}
use veri_close.Application.Workflow.Found.{first-list_for_run}
use veri_close.Application.Workflow.Propose.{Proposed, propose}
use veri_close.Application.Workflow.Proposed.{
  IsNew, propose-IsProposal, after_proposal, of_case, proposal_of-case_id,
}

-- The cases do not depend on the actions or on the audit.
module _ (host : Host) (s : Store) (actions : List (Snapshot ProposedAction))
    (audit : List AuditEvent) where
  abbrev acted : Store
  acted = record s { actions = actions; audit = audit }

  list_cases-acted : (run_id : String) → list_cases host run_id acted ≡ list_cases host run_id s
  unfolding list_cases get_run list_decisions list_exceptions list_events list_reviews
  list_cases-acted run_id = refl

  search_cases-acted :
      (case_id : String) (run_ids : List String)
      → search_cases host case_id run_ids acted ≡ search_cases host case_id run_ids s
  unfolding search_cases
  search_cases-acted case_id [] = refl
  search_cases-acted case_id (run_id ∷ run_ids) =
      ground (arith, list_cases-acted run_id, search_cases-acted case_id run_ids)

  get_case-acted : (case_id : String) → get_case host case_id acted ≡ get_case host case_id s
  unfolding get_case list_ids
  get_case-acted case_id = search_cases-acted case_id (list_ids s)

-- the call where the run lists an action of the case
propose-listed :
    (host : Host) (policy : ReconciliationPolicy) (case_id : String) (timestamp : DateTime)
    (s : Store) (case : CaseView) (exception : ExceptionCase) (v : ActionView)
    → get_case host case_id s ≡ ok case
    → case.exception ≡ some exception
    → first (of_case case_id) (list_for_run host case.run_id s) ≡ some v
    → propose host policy case_id timestamp s ≡ ok (record { action = v.action; store = s })
unfolding propose
propose-listed host policy case_id timestamp s case exception v found excepted listed = ground arith

-- The new action of a case is listed once it is stored.
new-listed :
    (host : Host) (case_id run_id : String) (a : ProposedAction) (s : Store)
    → str_eq a.case_id case_id ≡ true
    → first (of_case case_id) (list_for_run host run_id s) ≡ none
    → (v : ActionView) × (first
          (of_case case_id)
          (list_for_run host run_id (after_proposal run_id a s))
        ≡ some v)
      × (v.action ≡ a)
unfolding action_view
new-listed host case_id run_id a s h unlisted =
    let p : ProposedAction → Bool = λ b. str_eq b.case_id case_id in
    let t = after_proposal run_id a s in
    let grown : HasAppended run_id a s t = record { runs = refl; actions = refl } in
    let before = first-list_for_run host run_id s p in
    let after = first-list_for_run host run_id t p in
    elim (Option-cases (first p (list_actions run_id s))) [
      | inr (b, listed) ↦ absurd (ground arith)
      | inl none_listed ↦
          let now = first-list_actions_new run_id a s t p grown h none_listed in
          (
            action_view run_id (list_reviews host run_id t) (list_receipts host run_id t) a,
            rw now at after,
            refl,
          )
    ]

new-again :
    (host : Host) (policy again : ReconciliationPolicy) (case_id : String)
    (timestamp later : DateTime) (s : Store) (x : Proposed) (case : CaseView)
    (exception : ExceptionCase)
    → get_case host case_id s ≡ ok case
    → case.exception ≡ some exception
    → first (of_case case_id) (list_for_run host case.run_id s) ≡ none
    → IsNew host policy case_id case exception timestamp s x
    → propose host again case_id later x.store ≡ ok x
new-again host policy again case_id timestamp later s x case exception found excepted unlisted w =
    let named : str_eq x.action.case_id case_id ≡ true =
      (eq_iff x.action.case_id case_id).1 (proposal_of-case_id w) in
    let (v, listed, shows) = new-listed host case_id case.run_id x.action s named unlisted in
    let t = after_proposal case.run_id x.action s in
    let found' = get_case-acted host s t.actions t.audit case_id ∙ found in
    let done = propose-listed host again case_id later t case exception v found' excepted listed in
    let done' : propose host again case_id later t ≡ ok (record { action = x.action; store = t }) =
      rw shows at done in
    subst
      (λ (u : Store).
        propose host again case_id later u ≡ ok (record { action = x.action; store = u }))
      (sym w.store) done'

-- A proposal that has returned and is called again, at any time and under any policy, gives the same
-- action and leaves the store as it is.
pub propose-again :
    (host : Host) (policy again : ReconciliationPolicy) (case_id : String)
    (timestamp later : DateTime) (s : Store) (x : Proposed)
    → propose host policy case_id timestamp s ≡ ok x
    → propose host again case_id later x.store ≡ ok x
propose-again host policy again case_id timestamp later s x h =
    let d = propose-IsProposal host policy case_id timestamp s x h in
    elim d.outcome [
      | inl (v, listed, action, store) ↦
          let done =
            propose-listed host again case_id later s d.case d.exception v d.found d.excepted
              listed in
          let done' : propose host again case_id later s
              ≡ ok (record { action = x.action; store = s }) =
            rw (sym action) at done in
          subst
            (λ (u : Store).
              propose host again case_id later u ≡ ok (record { action = x.action; store = u }))
            (sym store) done'
      | inr (unlisted, w) ↦
          new-again host policy again case_id timestamp later s x d.case d.exception d.found
            d.excepted unlisted w
    ]
