-- ===== src/Application/Workflow/Proposed.antt =====
-- core/vericlose/application/actions.py: what a proposal does, and that it is done once.
use veri_close.Prelude.{
  ◌≡◌, ◌⊎◌, ◌∙◌, sym, ap, subst, String, str_append, str_eq, Bool, Option, none, some, [], ◌∷◌, ok,
  arith, first, Result-cases, Option-cases, inl, inr,
}
use veri_close.Domain.Actions.{
  ProposedAction, proposed_action, JournalProposal, is_journal_export, is_some,
}
use veri_close.Domain.Enums.{ActionType}
use veri_close.Domain.Events.{DateTime}
use veri_close.Domain.Exceptions.{ExceptionCase}
use veri_close.Reconciliation.Policy.{ReconciliationPolicy}
use veri_close.Application.Audit.{AuditEvent, audit_event}
use veri_close.Application.Cases.{CaseView, get_case}
use veri_close.Application.Host.{Host}
use veri_close.Application.Store.{Store}
use veri_close.Application.Store.Appends.{audit_event-same, append_audit-inv, append_action-new_row}
use veri_close.Application.Store.Latest.{new_row}
use veri_close.Application.Store.Reviews.{append_action, append_audit}
use veri_close.Application.Workflow.{ActionView, list_for_run, action_type_value}
use veri_close.Application.Workflow.Propose.{
  Proposed, propose, propose_new, planned, proposal_of, save_proposal,
}

-- the event that a proposal logs
abbrev pub proposal_event : String → ProposedAction → AuditEvent
proposal_event run_id action = record {
  audit_id = str_append "audit_" (str_append action.action_id "_proposed");
  run_id = run_id;
  event_type = "ACTION_PROPOSED";
  occurred_at = action.created_at;
  details =
      ("case_id", action.case_id)
      ∷ ("action_id", action.action_id)
      ∷ ("action_type", action_type_value action.action_type)
      ∷ [];
}

-- the store with a new snapshot and an audit event more
abbrev pub after_proposal : String → ProposedAction → Store → Store
after_proposal run_id action s = record s {
  actions = new_row run_id action s.actions ∷ s.actions;
  audit = proposal_event run_id action ∷ s.audit;
}

save_proposal-inv :
    (run_id : String) (a : ProposedAction) (s t : Store)
    → save_proposal run_id a s ≡ ok t
    → t ≡ after_proposal run_id a s
unfolding save_proposal
save_proposal-inv run_id a s t h = elim (Result-cases (audit_event (proposal_event run_id a))) [
  | inr (e, f) ↦ absurd (ground arith)
  | inl (event, logged) ↦
      let after = append_action run_id a s in
      let last : append_audit event after ≡ ok t = ground arith in
      ground (
        arith,
        append_audit-inv event after t last,
        audit_event-same (proposal_event run_id a) event logged,
        append_action-new_row run_id a s,
      )
]

-- A journal goes with a journal export, and with nothing else.
abbrev pub CarriesJournal : ProposedAction → Type 0
CarriesJournal a = is_some a.journal ≡ is_journal_export a.action_type

proposed_action-CarriesJournal :
    (a b : ProposedAction) → proposed_action a ≡ ok b → (a ≡ b) × CarriesJournal b
unfolding proposed_action
proposed_action-CarriesJournal a b h = (ground arith, ground arith)

-- Of a call that proposed a new action: nothing of the case was listed before, and the store has
-- the action's new snapshot, in state PROPOSED, and its audit event more.
pub record IsNew (host : Host) (policy : ReconciliationPolicy) (case_id : String) (case : CaseView)
    (exception : ExceptionCase) (timestamp : DateTime) (s : Store) (x : Proposed) : Type 0 where
  pub action_type : ActionType
  pub journal : Option JournalProposal
  pub plan : planned host policy exception case.events ≡ ok (action_type, journal)
  pub action :
      x.action ≡ proposal_of host policy case_id case exception timestamp action_type journal
  pub carries : CarriesJournal x.action
  pub store : x.store ≡ after_proposal case.run_id x.action s

propose_new-IsNew :
    (host : Host) (policy : ReconciliationPolicy) (case_id : String) (case : CaseView)
    (exception : ExceptionCase) (timestamp : DateTime) (s : Store) (x : Proposed)
    → propose_new host policy case_id case exception timestamp s ≡ ok x
    → IsNew host policy case_id case exception timestamp s x
unfolding propose_new
propose_new-IsNew host policy case_id case exception timestamp s x h =
    elim (Result-cases (planned host policy exception case.events)) [
      | inr (e, f) ↦ absurd (ground arith)
      | inl ((kind, journal), plan) ↦
          let a = proposal_of host policy case_id case exception timestamp kind journal in
          elim (Result-cases (proposed_action a)) [
            | inr (e, f) ↦ absurd (ground arith)
            | inl (b, built) ↦ elim (Result-cases (save_proposal case.run_id b s)) [
              | inr (e, f) ↦ absurd (ground arith)
              | inl (t, saved) ↦
                  let (same, carries) = proposed_action-CarriesJournal a b built in
                  let action' : b ≡ x.action = ground arith in
                  let store' : t ≡ x.store = ground arith in
                  record {
                    action_type = kind;
                    journal = journal;
                    plan = plan;
                    action = sym action' ∙ sym same;
                    carries = subst CarriesJournal action' carries;
                    store =
                        rw action' at (rw store' at (save_proposal-inv case.run_id b s t saved));
                  }
            ]
          ]
    ]

abbrev pub of_case : String → ActionView → Bool
of_case case_id v = str_eq v.action.case_id case_id

-- What a proposal that returns has done.
pub record IsProposal (host : Host) (policy : ReconciliationPolicy) (case_id : String)
    (timestamp : DateTime) (s : Store) (x : Proposed) : Type 0 where
  pub case : CaseView
  pub exception : ExceptionCase
  pub found : get_case host case_id s ≡ ok case
  pub excepted : case.exception ≡ some exception
  pub outcome :
      ((v : ActionView) × (first (of_case case_id) (list_for_run host case.run_id s) ≡ some v)
        × (x.action ≡ v.action)
        × (x.store ≡ s))
      ⊎ ((first (of_case case_id) (list_for_run host case.run_id s) ≡ none)
          × IsNew host policy case_id case exception timestamp s x)

-- A proposal that returns is for a case with an exception. It either gives the action that the run
-- already lists for the case and leaves the store as it was, or the run lists none, and the store
-- has exactly a new snapshot of the planned action, PROPOSED and with a journal just where it is
-- a journal export, and one audit event more.
pub propose-IsProposal :
    (host : Host) (policy : ReconciliationPolicy) (case_id : String) (timestamp : DateTime)
    (s : Store) (x : Proposed)
    → propose host policy case_id timestamp s ≡ ok x
    → IsProposal host policy case_id timestamp s x
unfolding propose
propose-IsProposal host policy case_id timestamp s x h =
    elim (Result-cases (get_case host case_id s)) [
      | inr (e, f) ↦ absurd (ground arith)
      | inl (case, found) ↦ elim (Option-cases case.exception) [
        | inl proved ↦ absurd (ground arith)
        | inr (exception, excepted) ↦
            elim (Option-cases (first (of_case case_id) (list_for_run host case.run_id s))) [
              | inr (v, listed) ↦ record {
                case = case;
                exception = exception;
                found = found;
                excepted = excepted;
                outcome = inl (v, listed, ground arith, ground arith);
              }
              | inl unlisted ↦ record {
                case = case;
                exception = exception;
                found = found;
                excepted = excepted;
                outcome = inr (
                  unlisted,
                  propose_new-IsNew host policy case_id case exception timestamp s x (ground arith),
                );
              }
            ]
      ]
    ]

-- The new action is of the case.
pub proposal_of-case_id :
    {host : Host} {policy : ReconciliationPolicy} {case_id : String} {case : CaseView}
    {exception : ExceptionCase} {timestamp : DateTime} {s : Store} {x : Proposed}
    → IsNew host policy case_id case exception timestamp s x
    → x.action.case_id ≡ case_id
unfolding proposal_of
proposal_of-case_id w = ap (λ (a : ProposedAction). a.case_id) w.action
