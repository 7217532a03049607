-- ===== src/Application/Cases.antt =====
-- core/vericlose/application/review_cases.py: the cases of a run, and preliminary reviews. The time
-- of a call is an argument: the caller's, or the clock's.
use veri_close.Prelude.{
  String, str_append, str_eq, Bool, ◌&&◌, Option, none, some, List, [], ◌∷◌, Result, ok, key_error,
  lookup_error, ◌>>=◌, ◌>>◌, raise_if, or_raise, filter, first, all, contains, traverse, err, true,
  false, if◌then◌else◌,
}
use veri_close.Domain.Actions.{ReviewDecision, review_decision}
use veri_close.Domain.Decisions.{ReconciliationDecision}
use veri_close.Domain.Enums.{ReviewState}
use veri_close.Domain.Events.{CanonicalEvent, DateTime}
use veri_close.Domain.Evidence.{EvidenceLink}
use veri_close.Domain.Exceptions.{ExceptionCase}
use veri_close.Reconciliation.Pipeline.{event_by_id}
use veri_close.Application.Audit.{audit_event}
use veri_close.Application.Host.{Host, digest_20}
use veri_close.Application.Store.{
  Store, get_run, list_ids, list_events, list_decisions, list_exceptions,
}
use veri_close.Application.Store.Reviews.{list_reviews, append_review, append_audit}

pub record CaseView : Type 0 where
  pub run_id : String
  pub case_id : String
  pub decision : ReconciliationDecision
  pub exception : Option ExceptionCase
  pub events : List CanonicalEvent
  pub reviews : List ReviewDecision

-- {link.event_id for link in links if link.event_id}
unfoldable pub members_of : List EvidenceLink → List String
members_of [] = []
members_of (link ∷ links) = elim link.event_id [
  | none ↦ members_of links
  | some id ↦ if str_eq id "" then members_of links else id ∷ members_of links
]

-- frozenset(a) == frozenset(b)
unfoldable pub same_members : List String → List String → Bool
same_members a b = all (λ x. contains x b) a && all (λ x. contains x a) b

-- exception_by_members.get(frozenset(event_ids)): the last exception of the same members stands
unfoldable pub exception_by_members : List ExceptionCase → List String → Option ExceptionCase
exception_by_members [] ids = none
exception_by_members (x ∷ exceptions) ids = elim (exception_by_members exceptions ids) [
  | some later ↦ some later
  | none ↦ if same_members (members_of x.evidence_links) ids then some x else none
]

abbrev pub case_id_of : Option ExceptionCase → ReconciliationDecision → String
case_id_of none decision = decision.decision_id
case_id_of (some x) decision = x.case_id

-- the body of the loop over the decisions
unfoldable pub case_view :
    String
    → List CanonicalEvent
    → List ExceptionCase
    → List ReviewDecision
    → ReconciliationDecision
    → Result CaseView
case_view run_id events exceptions reviews decision = do
  let exception = exception_by_members exceptions decision.event_ids
  let case_id = case_id_of exception decision
  members ←
      traverse (λ (id : String). or_raise (event_by_id events id) (key_error "event_id"))
        decision.event_ids
  ok (record {
    run_id = run_id;
    case_id = case_id;
    decision = decision;
    exception = exception;
    events = members;
    reviews = filter (λ (r : ReviewDecision). str_eq r.action_id case_id) reviews;
  })

abbrev pub is_absent {ℓ} : {A : Type ℓ} → Option A → Bool
is_absent none = true
is_absent (some a) = false

-- ReviewQueryService.list_cases
unfoldable pub list_cases : Host → String → Store → Result (List CaseView)
list_cases host run_id store = do
  raise_if (is_absent (get_run run_id store)) (lookup_error "run not found")
  traverse
      (case_view run_id (list_events run_id store) (list_exceptions run_id store)
        (list_reviews host run_id store))
      (list_decisions run_id store)

-- the loop of get_case over the runs
unfoldable pub search_cases : Host → String → List String → Store → Result CaseView
search_cases host case_id [] store = err (lookup_error "case not found")
search_cases host case_id (run_id ∷ run_ids) store = do
  cases ← list_cases host run_id store
  elim (first (λ (c : CaseView). str_eq c.case_id case_id) cases) [
    | some found ↦ ok found
    | none ↦ search_cases host case_id run_ids store
  ]

-- ReviewQueryService.get_case
unfoldable pub get_case : Host → String → Store → Result CaseView
get_case host case_id store = search_cases host case_id (list_ids store) store

-- `ReviewState.value`
abbrev pub review_state_value : ReviewState → String
review_state_value ReviewState.approved = "APPROVED"
review_state_value ReviewState.rejected = "REJECTED"
review_state_value ReviewState.edit_requested = "EDIT_REQUESTED"
review_state_value ReviewState.deferred = "DEFERRED"
review_state_value ReviewState.information_requested = "INFORMATION_REQUESTED"

pub record Recorded : Type 0 where
  pub review : ReviewDecision
  pub store : Store

-- PreliminaryReviewService.record
unfoldable pub record_review :
    Host → String → ReviewState → String → Option String → DateTime → Store → Result Recorded
record_review host case_id state reviewer_id comment timestamp store = do
  case ← get_case host case_id store
  let identity =
      digest_20 host (case.run_id ∷ case_id ∷ reviewer_id ∷ host.isoformat timestamp ∷ [])
  review ← review_decision (record {
    review_id = str_append "review_" identity;
    action_id = case_id;
    state = state;
    reviewer_id = reviewer_id;
    reviewed_at = timestamp;
    comment = comment;
  })
  reviewed ← append_review case.run_id review store
  event ← audit_event (record {
    audit_id = str_append "audit_" identity;
    run_id = case.run_id;
    event_type = "PRELIMINARY_REVIEW_RECORDED";
    occurred_at = timestamp;
    details =
        ("case_id", case_id)
        ∷ ("state", review_state_value state)
        ∷ ("reviewer_id", reviewer_id)
        ∷ [];
  })
  audited ← append_audit event reviewed
  ok (record { review = review; store = audited })
