-- ===== src/Reconciliation/ExceptionFactory.antt =====
-- core/vericlose/reconciliation/exception_factory.py
use veri_close.Prelude.{
  String, Option, none, some, List, [], ◌∷◌, Result, ok, ◌>>=◌, contains, first, if◌then◌else◌,
}
use veri_close.Domain.Enums.{is_proved}
use veri_close.Domain.Decisions.{ReconciliationDecision}
use veri_close.Domain.Exceptions.{ExceptionCase, exception_case}
use veri_close.Domain.Money.{money}
use veri_close.Reconciliation.Platform.{Platform}
use veri_close.Reconciliation.Policy.{ReconciliationPolicy, versioned_id, exception}
use veri_close.Reconciliation.Proposals.{CaseProposal, stable_id}

-- _PRIORITY
abbrev pub priority : List String
priority =
    "ERP_JOURNAL_UNBALANCED" ∷ "DUPLICATE_ERP_POSTING" ∷ "DUPLICATE_IDENTIFIER"
    ∷ "BANK_RECEIPT_AMBIGUOUS" ∷ "SETTLEMENT_COMPONENT_MISMATCH" ∷ "BANK_AMOUNT_MISMATCH"
    ∷ "ERP_POSTING_MISMATCH" ∷ "REFERENCE_MISMATCH" ∷ "MISSING_BANK_RECEIPT" ∷ "MISSING_ERP_POSTING"
    ∷ "BANK_DATE_OUT_OF_RANGE" ∷ "ORPHAN_BANK_CREDIT" ∷ "ORPHAN_ERP_POSTING" ∷ "UNKNOWN_UNRESOLVED"
    ∷ []

-- next((code for code in _PRIORITY if code in reason_codes), "UNKNOWN_UNRESOLVED")
unfoldable pub main_reason : List String → String
unfolding first contains
main_reason reasons = elim (first (λ code. contains code reasons) priority) [
  | some code ↦ code
  | none ↦ "UNKNOWN_UNRESOLVED"
]

-- the exception of a decision that is not proved
unfoldable pub unresolved :
    Platform
    → String
    → CaseProposal
    → ReconciliationDecision
    → ReconciliationPolicy
    → Result ExceptionCase
unresolved platform run_id proposal decision policy = do
  let reason = main_reason proposal.reason_codes
  classification ← exception policy reason
  amount_at_risk ← money proposal.amount_at_risk_minor policy.currency
  exception_case (record {
    case_id = stable_id platform "case" (run_id ∷ proposal.case_key ∷ versioned_id policy ∷ []);
    reason_code = reason;
    category = classification.category;
    severity = classification.severity;
    amount_at_risk = amount_at_risk;
    proof_level = decision.proof_level;
    evidence_links = decision.evidence_links;
    rules_attempted = proposal.rules_attempted;
    requires_company_input = classification.requires_company_input;
    recommended_action = classification.action;
    owner = none;
  })

-- create_exception
unfoldable pub create_exception :
    Platform
    → String
    → CaseProposal
    → ReconciliationDecision
    → ReconciliationPolicy
    → Result (Option ExceptionCase)
create_exception platform run_id proposal decision policy =
    let made = (do x ← unresolved platform run_id proposal decision policy; ok (some x)) in
    if is_proved decision.proof_level then ok none else made
