-- ===== src/Application/Samples.antt =====
-- A host, and a store with one settled case that lacks its ERP posting, for the runs and examples.
use veri_close.Prelude.{
  lstrip_str, rstrip_str, strip_str, String, true, false, none, List, [], ◌∷◌, map, pos, Result, ok,
  all, any, filter, first, total, contains, join, sort_by, insert_sorted, traverse, before_colon,
  str_ℕ, take_str, dedup_from, is_blank, is_space,
}
use veri_close.Domain.Actions.{
  journal_line, journal_proposal, debit_total, credit_total, proposed_action, transition,
  review_decision, action_receipt, action_step_allowed,
}
use veri_close.Domain.Decisions.{ReconciliationDecision}
use veri_close.Domain.Enums.{
  ActionType, Direction, DecisionState, EventType, ExceptionCategory, ProofLevel, RunState,
  Severity,
}
use veri_close.Domain.Events.{CanonicalEvent, DateTime, require_text, require_aware, require_sha256}
use veri_close.Domain.Evidence.{EvidenceLink, evidence_link}
use veri_close.Domain.Exceptions.{ExceptionCase}
use veri_close.Domain.Money.{money}
use veri_close.Domain.Runs as Runs
use veri_close.Domain.Runs.{RunManifest, run_manifest, run_step_allowed}
use veri_close.Reconciliation.Context.{group_journals}
use veri_close.Reconciliation.Indexes
use veri_close.Reconciliation.Pipeline.{event_by_id}
use veri_close.Reconciliation.Policy
use veri_close.Reconciliation.Policy.{ReconciliationPolicy, role, versioned_id}
use veri_close.Reconciliation.Proposals.{evidence, link_to}
use veri_close.Reconciliation.Samples.{platform, component, settlement_row, receipt}
use veri_close.Application.Audit.{audit_event}
use veri_close.Application.Cases.{
  members_of, same_members, exception_by_members, case_view, list_cases, search_cases, get_case,
  record_review,
}
use veri_close.Application.Host.{Host, digest_20}
use veri_close.Application.Store.{
  Row, Store, last_snapshot, in_run, items_of, insert_row, of_run, append_run, get_run, list_ids,
  list_events, list_decisions, list_exceptions,
}
use veri_close.Application.Store.Reviews.{
  append_review, list_reviews, of_action, append_action, is_latest, latest_actions, list_actions,
  append_receipt, list_receipts, find_receipt, append_audit,
}
use veri_close.Application.Workflow.{
  action_view, list_for_run, search_actions, get_action, put, put_all, dict_of,
}
use veri_close.Application.Workflow.Export.{
  ActionExporter, payload_value, receipt_of, save_export, export_new, export,
}
use veri_close.Application.Workflow.Journals.{
  event_evidence, first_code, line, of_kind, component as component_total, line_if, component_line,
  is_clearing, debit_lines, missing_erp_journal, starts_with, has_part, is_duplicate_name,
  last_name, duplicate_name, reversal_line, duplicate_reversal, journal_for,
}
use veri_close.Application.Workflow.Log.{history}
use veri_close.Application.Workflow.Propose.{
  gateway_reference, any_reference, reference, posting_date, rationale, clarification, planned,
  action_payload, proposal_of, save_proposal, propose_new, propose, Proposed,
}
use veri_close.Application.Workflow.Review.{
  only_editable, edit_payload, edit_action, move_action, review_identity, save_review, review_store,
  review,
}

-- `propose`, with all that the services call open to a run
unfoldable pub run_service :
    Host → ReconciliationPolicy → String → DateTime → Store → Result Proposed
unfolding all any filter first total contains join sort_by insert_sorted traverse before_colon str_ℕ
    take_str dedup_from is_blank is_space journal_line journal_proposal debit_total credit_total
    proposed_action transition review_decision action_receipt action_step_allowed require_text
    require_aware require_sha256 evidence_link money run_manifest run_step_allowed group_journals
    Indexes.get Policy.get Runs.transition event_by_id role versioned_id evidence audit_event
    members_of same_members exception_by_members case_view list_cases search_cases get_case
    record_review digest_20 last_snapshot in_run items_of insert_row of_run append_run get_run
    list_ids list_events list_decisions list_exceptions append_review list_reviews of_action
    append_action is_latest latest_actions list_actions append_receipt list_receipts find_receipt
    append_audit action_view list_for_run search_actions get_action put put_all dict_of
    payload_value receipt_of save_export export_new export event_evidence first_code line of_kind
    component_total line_if component_line is_clearing debit_lines missing_erp_journal starts_with
    has_part is_duplicate_name last_name duplicate_name reversal_line duplicate_reversal journal_for
    history gateway_reference any_reference reference posting_date rationale clarification planned
    action_payload proposal_of save_proposal propose_new propose only_editable lstrip_str rstrip_str
    strip_str edit_payload edit_action move_action review_identity save_review review_store review
run_service = propose

abbrev pub host : Host
host = record {
  platform = platform;
  isoformat = λ d. "2025-01-02T00:00:00+00:00";
  date_isoformat = λ d. "2025-01-02";
  instant = λ d. d.date;
  parse_int = λ s. ok 0;
}

abbrev pub noon : DateTime
noon = record { date = 739002; clock = 43200; aware = true }

abbrev pub posted_events : List CanonicalEvent
posted_events =
    component "g1" EventType.payment Direction.credit 1000
    ∷ component "g2" EventType.fee Direction.debit 20
    ∷ component "g3" EventType.tax Direction.debit 4
    ∷ settlement_row
    ∷ receipt "b1" 976 "UTR1"
    ∷ []

abbrev links : List EvidenceLink
links = map (λ (e : CanonicalEvent). link_to e "unposted settlement") posted_events

abbrev decision : ReconciliationDecision
decision = record {
  decision_id = "decision_1";
  state = DecisionState.exception;
  event_ids = "g1" ∷ "g2" ∷ "g3" ∷ "g4" ∷ "b1" ∷ [];
  proof_level = ProofLevel.supported;
  proof_checks = [];
  evidence_links = links;
  uniqueness_passed = true;
  contradiction_reason = none;
  policy_allows_auto_clear = false;
  related_proposal_ids = [];
}

abbrev pub missing_posting : ExceptionCase
missing_posting = record {
  case_id = "case_1";
  reason_code = "MISSING_ERP_POSTING";
  category = ExceptionCategory.missing_source;
  severity = Severity.high;
  amount_at_risk = record { amount_minor = 976; currency = "INR" };
  proof_level = ProofLevel.supported;
  evidence_links = links;
  rules_attempted = "settlement" ∷ [];
  requires_company_input = false;
  recommended_action = ActionType.journal_export;
  owner = none;
}

abbrev pub manifest : RunState → RunManifest
manifest state = record {
  run_id = "run_1";
  state = state;
  seed = pos 7;
  policy_version = "razorpay_inr_v1";
  rule_version = "segment4-v1";
  mapping_versions = [];
  input_files = [];
  build_commit = "c0ffee";
  created_at = noon;
}

abbrev row : {A : Type 0} → A → Row A
row item = record { run_id = "run_1"; item = item }

abbrev pub store : Store
store = record {
  runs = record { run_id = "run_1"; snapshot_number = 1; item = manifest RunState.completed } ∷ [];
  events = map row posted_events;
  decisions = row decision ∷ [];
  exceptions = row missing_posting ∷ [];
  summaries = [];
  reviews = [];
  actions = [];
  receipts = [];
  audit = [];
}

abbrev pub exporter : ActionExporter
exporter = record {
  export = λ run_id action. ok (record {
    relative_path = "runs/run_1/exports/action.csv";
    media_type = "text/csv";
    sha256 = "e3b0c44298fc1c149afbf4c8996fb92427ae41e4649b934ca495991b7852b855";
    size_bytes = 120;
  });
  read = λ artifact. ok [];
}
