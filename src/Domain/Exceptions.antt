-- ===== src/Domain/Exceptions.antt =====
-- core/vericlose/domain/exceptions.py
use veri_close.Prelude.{
  String, Bool, not, Option, List, Result, ok, value_error, ◌>>◌, raise_if, is_blank, any,
  non_empty,
}
use veri_close.Domain.Enums.{ActionType, ExceptionCategory, ProofLevel, Severity, is_proved}
use veri_close.Domain.Events.{require_text}
use veri_close.Domain.Evidence.{EvidenceLink}
use veri_close.Domain.Money.{Money}

pub record ExceptionCase : Type 0 where
  pub case_id : String
  pub reason_code : String
  pub category : ExceptionCategory
  pub severity : Severity
  pub amount_at_risk : Money
  pub proof_level : ProofLevel
  pub evidence_links : List EvidenceLink
  pub rules_attempted : List String
  pub requires_company_input : Bool
  pub recommended_action : ActionType
  pub owner : Option String

unfoldable pub exception_case : ExceptionCase → Result ExceptionCase
unfolding require_text any is_blank
exception_case x = do
  require_text x.case_id "case_id"
  require_text x.reason_code "reason_code"
  raise_if (is_proved x.proof_level) (value_error "a PROVED decision is not an exception")
  raise_if (not (non_empty x.evidence_links))
      (value_error "an exception must cite at least one evidence row")
  raise_if (not (non_empty x.rules_attempted))
      (value_error "rules_attempted must be an immutable non-empty tuple")
  raise_if (any is_blank x.rules_attempted)
      (value_error "rules_attempted must contain at least one non-blank rule ID")
  ok x
