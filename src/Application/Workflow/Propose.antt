-- ===== src/Application/Workflow/Propose.antt =====
-- core/vericlose/application/actions.py: ActionService.propose.
use veri_close.Prelude.{
  String, str_append, str_eq, Bool, true, false, ◌&&◌, Option, none, some, List, [], ◌∷◌, Result,
  ok, value_error, ◌>>=◌, or_raise, first, str_ℕ, if◌then◌else◌,
}
use veri_close.Domain.Actions.{
  ProposedAction, proposed_action, JournalProposal, StringPairs, is_journal_export,
}
use veri_close.Domain.Enums.{ActionType, ActionState, is_bank, is_gateway}
use veri_close.Domain.Events.{CanonicalEvent, DateTime, truthy}
use veri_close.Domain.Exceptions.{ExceptionCase}
use veri_close.Reconciliation.Policy.{ReconciliationPolicy, versioned_id}
use veri_close.Application.Audit.{audit_event}
use veri_close.Application.Cases.{CaseView, get_case}
use veri_close.Application.Host.{Host, digest_20}
use veri_close.Application.Store.{Store}
use veri_close.Application.Store.Reviews.{append_action, append_audit}
use veri_close.Application.Workflow.{ActionView, list_for_run, action_type_value}
use veri_close.Application.Workflow.Journals.{journal_for}

-- event.settlement_reference of the first gateway event that has one
unfoldable pub gateway_reference : List CanonicalEvent → Option String
gateway_reference [] = none
gateway_reference (e ∷ events) =
    let rest = gateway_reference events in
    if is_gateway e.source_type && truthy e.settlement_reference
    then e.settlement_reference
    else rest

-- the first reference of the first event that has one
unfoldable pub any_reference : List CanonicalEvent → Option String
any_reference [] = none
any_reference (e ∷ events) =
    let rest = any_reference events in
    if truthy e.settlement_reference
    then e.settlement_reference
    else if truthy e.external_reference
    then e.external_reference
    else if truthy e.bank_utr
    then e.bank_utr
    else rest

-- ActionService._reference, `or "not-available"`
unfoldable pub reference : List CanonicalEvent → String
reference events = elim (gateway_reference events) [
  | some found ↦ found
  | none ↦ elim (any_reference events) [ some found ↦ found | none ↦ "not-available" ]
]

-- the value date of the first bank event that has one, or the date of the call
unfoldable pub posting_date : Host → List CanonicalEvent → DateTime → String
posting_date host [] timestamp = host.date_isoformat timestamp.date
posting_date host (e ∷ events) timestamp =
    let rest = posting_date host events timestamp in
    elim e.value_date [
      | none ↦ rest
      | some day ↦ if is_bank e.source_type then host.date_isoformat day else rest
    ]

abbrev pub is_manual : ActionType → Bool
is_manual ActionType.manual_review = true
is_manual _ = false

-- ActionService._rationale
unfoldable pub rationale : ExceptionCase → ActionType → String
rationale exception action_type =
    if is_manual action_type
    then str_append exception.reason_code
        " has no deterministic posting template; retain for manual review."
    else str_append "Policy routes " (
        str_append exception.reason_code (
          str_append " to " (
            str_append (action_type_value action_type) "; source evidence remains authoritative.")))

-- ActionService._clarification
unfoldable pub clarification : ExceptionCase → String
clarification exception = str_append "Please provide evidence that resolves " (
    str_append exception.reason_code (
      str_append " for the cited settlement. Current amount at risk is " (
        str_append (str_ℕ exception.amount_at_risk.amount_minor)
          " paise; no explanation has been assumed.")))

-- the type and the journal of the proposal
unfoldable pub planned :
    Host
    → ReconciliationPolicy
    → ExceptionCase
    → List CanonicalEvent
    → Result (ActionType × Option JournalProposal)
planned host policy exception events =
    if is_journal_export exception.recommended_action
    then (do
      journal ← journal_for host policy exception events
      ok (elim journal [
        | none ↦ (ActionType.manual_review, none)
        | some j ↦ (exception.recommended_action, some j)
      ]))
    else ok (exception.recommended_action, none)

unfoldable pub action_payload :
    Host
    → ReconciliationPolicy
    → CaseView
    → ExceptionCase
    → ActionType
    → DateTime
    → String
    → StringPairs
action_payload host policy case exception action_type timestamp action_id =
    ("reason_code", exception.reason_code)
    ∷ ("policy_version", versioned_id policy)
    ∷ ("reference", reference case.events)
    ∷ ("posting_date", posting_date host case.events timestamp)
    ∷ ("rationale", rationale exception action_type)
    ∷ ("clarification_text", clarification exception)
    ∷ ("idempotency_key", str_append "export:" action_id)
    ∷ []

-- the proposal before its constructor's checks
unfoldable pub proposal_of :
    Host
    → ReconciliationPolicy
    → String
    → CaseView
    → ExceptionCase
    → DateTime
    → ActionType
    → Option JournalProposal
    → ProposedAction
proposal_of host policy case_id case exception timestamp action_type journal =
    let action_id =
      str_append "action_"
        (digest_20 host (case.run_id ∷ case_id ∷ action_type_value action_type ∷ [])) in
    record {
      action_id = action_id;
      action_type = action_type;
      case_id = case_id;
      state = ActionState.proposed;
      journal = journal;
      payload = action_payload host policy case exception action_type timestamp action_id;
      evidence_links = exception.evidence_links;
      created_at = timestamp;
    }

pub record Proposed : Type 0 where
  pub action : ProposedAction
  pub store : Store

-- the transaction of ActionService.propose
unfoldable pub save_proposal : String → ProposedAction → Store → Result Store
save_proposal run_id action store = do
  event ← audit_event (record {
    audit_id = str_append "audit_" (str_append action.action_id "_proposed");
    run_id = run_id;
    event_type = "ACTION_PROPOSED";
    occurred_at = action.created_at;
    details =
        ("case_id", action.case_id)
        ∷ ("action_id", action.action_id)
        ∷ ("action_type", action_type_value action.action_type)
        ∷ [];
  })
  append_audit event (append_action run_id action store)

-- the rest of ActionService.propose, for a case without an action
unfoldable pub propose_new :
    Host
    → ReconciliationPolicy
    → String
    → CaseView
    → ExceptionCase
    → DateTime
    → Store
    → Result Proposed
propose_new host policy case_id case exception timestamp store = do
  plan ← planned host policy exception case.events
  action ← proposed_action (proposal_of host policy case_id case exception timestamp plan.0 plan.1)
  stored ← save_proposal case.run_id action store
  ok (record { action = action; store = stored })

-- ActionService.propose
unfoldable pub propose : Host → ReconciliationPolicy → String → DateTime → Store → Result Proposed
propose host policy case_id timestamp store = do
  case ← get_case host case_id store
  exception ← or_raise case.exception (value_error "proved cases do not require a proposed action")
  elim (first (λ (v : ActionView). str_eq v.action.case_id case_id)
      (list_for_run host case.run_id store)) [
        | some existing ↦ ok (record { action = existing.action; store = store })
        | none ↦ propose_new host policy case_id case exception timestamp store
      ]
