-- ===== src/Reconciliation/Rules/Settlement.antt =====
-- rules/settlement.py, `analyze_settlement`: the three steps and the proposal.
use veri_close.Prelude.{
  String, str_append, Bool, false, ◌&&◌, none, List, [], ◌∷◌, ◌++◌, map, ℤ, pos, max_ℤ, eqb_ℤ,
  Result, ok, ◌>>=◌, traverse, sort_by, dedup, codes, upper, of_codes, if◌then◌else◌,
}
use veri_close.Domain.Events.{CanonicalEvent, Scalar}
use veri_close.Domain.Evidence.{EvidenceLink, ProofCheck, proof_check}
use veri_close.Reconciliation.Platform.{Platform}
use veri_close.Reconciliation.Context.{ReconciliationContext}
use veri_close.Reconciliation.Indexes.{by_id}
use veri_close.Reconciliation.Policy.{ReconciliationPolicy, versioned_id}
use veri_close.Reconciliation.Proposals.{CaseProposal, SupportFeature, stable_id, unique_evidence}
use veri_close.Reconciliation.Rules.Checks.{required_passed}
use veri_close.Reconciliation.Rules.Support.{score_bank_group, weight}
use veri_close.Reconciliation.Rules.Gateway.{GatewayPart, gateway_part, one_row}
use veri_close.Reconciliation.Rules.Bank.{BankPart, bank_part}
use veri_close.Reconciliation.Rules.Erp.{ErpPart, erp_part}

-- RULES
abbrev pub rules : List String
rules =
    "exact_identifier_v1" ∷ "settlement_component_v1" ∷ "bank_receipt_v1" ∷ "erp_posting_v1"
    ∷ "bounded_grouping_v1" ∷ "candidate_support_v1" ∷ []

-- f"SUPPORT_{name.upper()}"
unfoldable pub support_code : String → String
unfolding upper of_codes
support_code name = str_append "SUPPORT_" (of_codes (upper (codes name)))

-- one round of the loop over the features
unfoldable pub support_check :
    ReconciliationPolicy → List EvidenceLink → SupportFeature → Result ProofCheck
support_check policy links feature = do
  expected ← weight policy feature.name
  proof_check (record {
    check_code = support_code feature.name;
    expected = Scalar.int expected;
    observed = Scalar.int feature.score_bps;
    tolerance_minor = none;
    passed = eqb_ℤ feature.score_bps expected;
    required = false;
    evidence_links = links;
  })

abbrev pub event_id_of : CanonicalEvent → String
event_id_of event = event.event_id

-- the score where the settlement is not proved
unfoldable pub settlement_score :
    Platform
    → ReconciliationContext
    → String
    → GatewayPart
    → BankPart
    → Bool
    → Result (ℤ × List SupportFeature)
settlement_score platform context reference gateway bank proved =
    let score =
      score_bank_group platform bank.group gateway.observed_net reference bank.expected_utr
        gateway.anchor.event_at.date context.policy in
    if proved then ok (pos 0, []) else score

-- the checks of the three steps, in their order
abbrev pub proof_checks_of : GatewayPart → BankPart → ErpPart → List ProofCheck
proof_checks_of gateway bank erp = gateway.checks ++ (bank.checks ++ erp.checks)

-- analyze_settlement
unfoldable pub analyze_settlement :
    Platform → ReconciliationContext → String → List String → Result CaseProposal
analyze_settlement platform context settlement_reference consumed_bank_ids = do
  gateway ← gateway_part context settlement_reference
  bank ← bank_part context gateway consumed_bank_ids
  erp ← erp_part context gateway settlement_reference
  let checks = proof_checks_of gateway bank erp
  let hard_unique = one_row gateway.rows && bank.unique && erp.unique
  let proved = required_passed context.policy.auto_clear_required_checks checks && hard_unique
  (score, features) ← settlement_score platform context settlement_reference gateway bank proved
  support_checks ← traverse (support_check context.policy bank.cited) features
  let selected_events = sort_by by_id (gateway.gateway ++ (bank.candidates ++ erp.events))
  ok (record {
    proposal_id =
        stable_id platform "proposal"
          (context.run_id ∷ settlement_reference ∷ versioned_id context.policy ∷ []);
    case_key = settlement_reference;
    event_ids = map event_id_of selected_events;
    proof_checks = checks ++ support_checks;
    evidence_links = unique_evidence (gateway.links ++ (bank.links ++ erp.links));
    reason_codes = dedup (gateway.reasons ++ (bank.reasons ++ erp.reasons));
    rules_attempted = rules;
    support_features = features;
    support_score_bps = score;
    amount_at_risk_minor = max_ℤ (max_ℤ (pos gateway.observed_net) gateway.expected_net) (pos 0);
    uniqueness_passed = hard_unique;
    ambiguous = bank.ambiguous;
    invalid_input = erp.invalid_input;
  })
