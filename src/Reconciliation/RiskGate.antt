-- ===== src/Reconciliation/RiskGate.antt =====
-- core/vericlose/reconciliation/risk_gate.py
pub mod Laws
use veri_close.Prelude.{
  String, Bool, ◌&&◌, Option, none, some, List, [], ◌∷◌, Result, contains, first, if◌then◌else◌,
}
use veri_close.Domain.Enums.{DecisionState, ProofLevel, is_proved}
use veri_close.Domain.Decisions.{ReconciliationDecision, reconciliation_decision}
use veri_close.Reconciliation.Platform.{Platform}
use veri_close.Reconciliation.Policy.{ReconciliationPolicy, versioned_id}
use veri_close.Reconciliation.Proposals.{CaseProposal, stable_id}
use veri_close.Reconciliation.Rules.Checks.{required_passed}

-- _HARD_CONTRADICTIONS
abbrev pub hard_contradictions : List String
hard_contradictions =
    "DUPLICATE_IDENTIFIER" ∷ "DUPLICATE_ERP_POSTING" ∷ "SETTLEMENT_COMPONENT_MISMATCH"
    ∷ "BANK_AMOUNT_MISMATCH" ∷ "ERP_POSTING_MISMATCH" ∷ []

-- next((code for code in reason_codes if code in _HARD_CONTRADICTIONS), None)
unfoldable pub contradiction_of : List String → Option String
unfolding first contains
contradiction_of reasons = first (λ code. contains code hard_contradictions) reasons

pub record Disposition : Type 0 where
  pub proof_level : ProofLevel
  pub state : DecisionState
  pub contradiction_reason : Option String

-- the last two branches
abbrev pub without_contradiction : Bool → Bool → Disposition
without_contradiction proved enabled =
    if proved
    then record {
      proof_level = ProofLevel.proved;
      state = if enabled then DecisionState.auto_cleared else DecisionState.proposed;
      contradiction_reason = none;
    }
    else record {
      proof_level = ProofLevel.supported;
      state = DecisionState.review_required;
      contradiction_reason = none;
    }

-- the last three branches; a reason is never the empty text
abbrev pub by_contradiction : Option String → Bool → Bool → Disposition
by_contradiction (some code) proved enabled = record {
  proof_level = ProofLevel.contradicted;
  state = DecisionState.exception;
  contradiction_reason = some code;
}
by_contradiction none proved enabled = without_contradiction proved enabled

-- the chain of `if` and `elif`
unfoldable pub dispose : CaseProposal → Bool → Bool → Disposition
dispose proposal required enabled =
    if proposal.invalid_input
    then record {
      proof_level = ProofLevel.invalid_input;
      state = DecisionState.exception;
      contradiction_reason = none;
    }
    else if proposal.ambiguous
    then record {
      proof_level = ProofLevel.ambiguous;
      state = DecisionState.review_required;
      contradiction_reason = none;
    }
    else by_contradiction (contradiction_of proposal.reason_codes)
        (required && proposal.uniqueness_passed) enabled

-- the decision before its constructor's checks
unfoldable pub decided :
    Platform → String → CaseProposal → ReconciliationPolicy → ReconciliationDecision
decided platform run_id proposal policy =
    let required = required_passed policy.auto_clear_required_checks proposal.proof_checks in
    let d = dispose proposal required policy.auto_clear_enabled in
    record {
      decision_id =
          stable_id platform "decision" (run_id ∷ proposal.case_key ∷ versioned_id policy ∷ []);
      state = d.state;
      event_ids = proposal.event_ids;
      proof_level = d.proof_level;
      proof_checks = proposal.proof_checks;
      evidence_links = proposal.evidence_links;
      uniqueness_passed = proposal.uniqueness_passed;
      contradiction_reason = d.contradiction_reason;
      policy_allows_auto_clear =
          is_proved d.proof_level
          && policy.auto_clear_enabled
          && required
          && proposal.uniqueness_passed;
      related_proposal_ids = proposal.proposal_id ∷ [];
    }

-- decide
unfoldable pub decide :
    Platform → String → CaseProposal → ReconciliationPolicy → Result ReconciliationDecision
decide platform run_id proposal policy =
    reconciliation_decision (decided platform run_id proposal policy)
