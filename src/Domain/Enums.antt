-- ===== src/Domain/Enums.antt =====
-- core/vericlose/domain/enums.py
use Prim.Native.String.{String}
use mathlib.Core.Bool.{Bool, true, false}

pub data SourceType : Type 0 where
  gateway bank erp : SourceType

pub data Direction : Type 0 where
  debit credit : Direction

pub data ProofLevel : Type 0 where
  proved supported ambiguous contradicted invalid_input : ProofLevel

pub data EventType : Type 0 where
  payment refund fee tax adjustment settlement bank_credit bank_debit erp_journal_line : EventType

pub data ExceptionCategory : Type 0 where
  data_quality reference timing amount duplicate missing_source accounting policy :
      ExceptionCategory
  ambiguous unknown : ExceptionCategory

pub data DecisionState : Type 0 where
  proposed auto_cleared review_required exception : DecisionState

pub data Severity : Type 0 where
  low medium high critical : Severity

pub data ReviewState : Type 0 where
  approved rejected edit_requested deferred information_requested : ReviewState

pub data ActionType : Type 0 where
  journal_export clarification_request mapping_correction corrected_data_import wait : ActionType
  accept_difference manual_review no_action : ActionType

pub data ActionState : Type 0 where
  proposed approved rejected exported failed cancelled : ActionState

pub data RunState : Type 0 where
  created files_attached validated reconciling completed failed_validation failed : RunState
  cancelled : RunState

-- `is` tests on members
abbrev pub is_gateway : SourceType → Bool
is_gateway SourceType.gateway = true
is_gateway _ = false

abbrev pub is_bank : SourceType → Bool
is_bank SourceType.bank = true
is_bank _ = false

abbrev pub is_erp : SourceType → Bool
is_erp SourceType.erp = true
is_erp _ = false

abbrev pub is_credit : Direction → Bool
is_credit Direction.credit = true
is_credit Direction.debit = false

abbrev pub same_direction : Direction → Direction → Bool
same_direction Direction.debit Direction.debit = true
same_direction Direction.credit Direction.credit = true
same_direction _ _ = false

abbrev pub is_proved : ProofLevel → Bool
is_proved ProofLevel.proved = true
is_proved _ = false

-- `Direction.value`
abbrev pub direction_value : Direction → String
direction_value Direction.debit = "DEBIT"
direction_value Direction.credit = "CREDIT"

-- `EventType.value`
abbrev pub event_type_value : EventType → String
event_type_value EventType.payment = "PAYMENT"
event_type_value EventType.refund = "REFUND"
event_type_value EventType.fee = "FEE"
event_type_value EventType.tax = "TAX"
event_type_value EventType.adjustment = "ADJUSTMENT"
event_type_value EventType.settlement = "SETTLEMENT"
event_type_value EventType.bank_credit = "BANK_CREDIT"
event_type_value EventType.bank_debit = "BANK_DEBIT"
event_type_value EventType.erp_journal_line = "ERP_JOURNAL_LINE"
