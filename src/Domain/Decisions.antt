-- ===== src/Domain/Decisions.antt =====
-- core/vericlose/domain/decisions.py
use veri_close.Prelude.{
  String, Bool, true, false, not, ◌&&◌, ◌||◌, Option, List, ℤ, pos, Result, ok, value_error, ◌>>◌,
  raise_if, ltb_ℤ, nat_eq, is_blank, all, any, filter, length, non_empty, dedup,
}
use veri_close.Domain.Enums.{DecisionState, ProofLevel, is_proved}
use veri_close.Domain.Events.{require_text, truthy}
use veri_close.Domain.Evidence.{EvidenceLink, MatchGroup, ProofCheck}

pub record MatchProposal : Type 0 where
  pub proposal_id : String
  pub rule_id : String
  pub rule_version : String
  pub match_group : MatchGroup
  pub proposed_proof_level : ProofLevel
  pub support_score_bps : ℤ
  pub proof_checks : List ProofCheck
  pub evidence_links : List EvidenceLink
  pub reason_codes : List String
  pub notes : Option String

unfoldable pub match_proposal : MatchProposal → Result MatchProposal
unfolding require_text any is_blank
match_proposal p = do
  require_text p.proposal_id "proposal_id"
  require_text p.rule_id "rule_id"
  require_text p.rule_version "rule_version"
  raise_if (ltb_ℤ p.support_score_bps (pos 0) || ltb_ℤ (pos 10_000) p.support_score_bps)
      (value_error "support_score_bps must be between 0 and 10_000")
  raise_if (any is_blank p.reason_codes) (value_error "reason_codes cannot contain blank values")
  ok p

pub record ReconciliationDecision : Type 0 where
  pub decision_id : String
  pub state : DecisionState
  pub event_ids : List String
  pub proof_level : ProofLevel
  pub proof_checks : List ProofCheck
  pub evidence_links : List EvidenceLink
  pub uniqueness_passed : Bool
  pub contradiction_reason : Option String
  pub policy_allows_auto_clear : Bool
  pub related_proposal_ids : List String

abbrev pub is_auto_cleared : DecisionState → Bool
is_auto_cleared DecisionState.auto_cleared = true
is_auto_cleared _ = false

abbrev pub is_contradicted : ProofLevel → Bool
is_contradicted ProofLevel.contradicted = true
is_contradicted _ = false

-- the checks of a decision that claims a proof
unfoldable pub require_proof : ReconciliationDecision → Result (Unit {0})
require_proof d = do
  let required_checks = filter (λ (c : ProofCheck). c.required) d.proof_checks
  raise_if (not (non_empty required_checks))
      (value_error "PROVED decision requires at least one required proof check")
  raise_if (not (all (λ (c : ProofCheck). c.passed) required_checks))
      (value_error "PROVED decision requires every required proof check to pass")
  raise_if (not d.uniqueness_passed) (value_error "PROVED decision requires uniqueness_passed=True")
  raise_if (not (non_empty d.evidence_links))
      (value_error "PROVED decision requires non-empty evidence")
  raise_if (truthy d.contradiction_reason)
      (value_error "PROVED decision cannot have a contradiction_reason")

abbrev pub when : Bool → Result (Unit {0}) → Result (Unit {0})
when true r = r
when false r = ok tt

-- ReconciliationDecision.__post_init__
unfoldable pub reconciliation_decision : ReconciliationDecision → Result ReconciliationDecision
reconciliation_decision d = do
  require_text d.decision_id "decision_id"
  raise_if (not (non_empty d.event_ids)) (value_error "event_ids cannot be empty")
  raise_if (not (nat_eq (length (dedup d.event_ids)) (length d.event_ids)))
      (value_error "event_ids must be unique")
  when (is_proved d.proof_level) (require_proof d)
  raise_if (is_contradicted d.proof_level && not (truthy d.contradiction_reason))
      (value_error "CONTRADICTED decision requires a contradiction_reason")
  raise_if (d.policy_allows_auto_clear && not (is_proved d.proof_level))
      (value_error "only a PROVED decision may allow auto-clear")
  raise_if
      (is_auto_cleared d.state && (not (is_proved d.proof_level) || not d.policy_allows_auto_clear))
      (value_error "AUTO_CLEARED requires a policy-permitted PROVED decision")
  ok d
