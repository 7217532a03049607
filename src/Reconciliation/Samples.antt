-- ===== src/Reconciliation/Samples.antt =====
-- A platform, the policy of config/policies/razorpay_inr_v1.yaml with no exception but the fallback,
-- and one settlement that reconciles, for the runs and the examples.
use mathlib.Core.List.{flatten}
use veri_close.Prelude.{
  ℕ, String, true, Option, none, some, List, [], ◌∷◌, pos, negsuc, Result, ◌+ℤ◌, ◌-ℤ◌, ◌*ℤ◌, abs,
  max_ℤ, all, filter, total, contains, join, sort_by, traverse, before_colon, str_ℤ, take_str,
  dedup_from,
}
use veri_close.Domain.Decisions.{reconciliation_decision, require_proof}
use veri_close.Domain.Evidence.{proof_check}
use veri_close.Domain.Exceptions.{exception_case}
use veri_close.Domain.Money.{money}
use veri_close.Reconciliation.Context
use veri_close.Reconciliation.Context.{
  build_from, settlement_references, gateway_settlement, erp_journals, bank_candidates,
  is_bank_candidate, same_scope, add_days, group_journals, only_currency, gateway_references,
}
use veri_close.Reconciliation.ExceptionFactory.{create_exception, unresolved, main_reason}
use veri_close.Reconciliation.Grouping.{amount_groups}
use veri_close.Reconciliation.Indexes
use veri_close.Reconciliation.Pipeline.{
  KernelResult, reconcile, match_references, consume, event_by_id, orphan_proposals,
  orphan_journals, orphan, max_amount, exceptions_of,
}
use veri_close.Reconciliation.Policy
use veri_close.Reconciliation.Policy.{component_sign, tolerance, role, exception, versioned_id}
use veri_close.Reconciliation.Proposals.{evidence, stable_id, unique_from}
use veri_close.Reconciliation.RiskGate.{decide, decided, dispose, contradiction_of}
use veri_close.Reconciliation.Rules.Bank.{
  bank_part, select_bank_group, select_group, utr_events, resolve, identifier_conflict, put_groups,
  date_in_range, days_text, join_set,
}
use veri_close.Reconciliation.Rules.Checks.{check, required_passed, last_check}
use veri_close.Reconciliation.Rules.Erp.{
  erp_part, posting as erp_posting, is_posting, journal_debits, journal_credits,
}
use veri_close.Reconciliation.Rules.Gateway.{gateway_part, signed_total}
use veri_close.Reconciliation.Rules.Settlement.{
  analyze_settlement, settlement_score, support_check, support_code,
}
use veri_close.Reconciliation.Rules.Support.{
  score_bank_group, score_group, weight, weight_if, max_distance, reference_equal, total_score,
}
use veri_close.Domain.Enums.{
  SourceType, Direction, EventType, ExceptionCategory, Severity, ActionType,
}
use veri_close.Domain.Events.{CanonicalEvent, require_text}
use veri_close.Reconciliation.Platform.{Platform}
use veri_close.Reconciliation.Policy.{ReconciliationPolicy, AccountRolePolicy}

-- `reconcile`, with all that it calls open to a run
unfoldable pub run_kernel :
    Platform → List CanonicalEvent → ReconciliationPolicy → Result KernelResult
unfolding reconcile Context.build build_from settlement_references match_references consume
    event_by_id orphan_proposals orphan_journals orphan max_amount exceptions_of create_exception
    unresolved main_reason decide decided dispose reconciliation_decision analyze_settlement
    settlement_score support_check support_code gateway_part signed_total bank_part
    select_bank_group select_group utr_events resolve date_in_range days_text join_set erp_part
    erp_posting is_posting journal_debits journal_credits check required_passed score_bank_group
    score_group weight weight_if max_distance reference_equal total_score gateway_settlement
    erp_journals bank_candidates is_bank_candidate same_scope add_days group_journals amount_groups
    Indexes.build Indexes.get Policy.get component_sign tolerance role exception versioned_id
    evidence stable_id unique_from proof_check exception_case money flatten ◌+ℤ◌ ◌-ℤ◌ ◌*ℤ◌ abs max_ℤ
    all filter total contains join sort_by traverse before_colon str_ℤ take_str only_currency
    gateway_references identifier_conflict put_groups last_check contradiction_of require_text
    require_proof dedup_from
run_kernel = reconcile

abbrev pub platform : Platform
platform = record {
  sha256_hexdigest = λ s. "e3b0c44298fc1c149afbf4c8996fb92427ae41e4649b934ca495991b7852b855";
  lower = λ s. s;
  ratio_score = λ w a b. pos 0;
  ratio_text = λ a b. "0.0000";
}

abbrev pub required : List String
required =
    "GATEWAY_SETTLEMENT_UNIQUE" ∷ "SETTLEMENT_COMPONENT_INVARIANT" ∷ "BANK_RECEIPT_PRESENT"
    ∷ "BANK_RECEIPT_AMOUNT" ∷ "BANK_RECEIPT_DIRECTION" ∷ "BANK_RECEIPT_REFERENCE"
    ∷ "BANK_RECEIPT_DATE" ∷ "BANK_RECEIPT_UNIQUE" ∷ "ERP_JOURNAL_PRESENT" ∷ "ERP_JOURNAL_UNIQUE"
    ∷ "ERP_JOURNAL_BALANCED" ∷ "ERP_BANK_POSTING" ∷ "ERP_CLEARING_POSTING" ∷ "ERP_FEE_POSTING"
    ∷ "ERP_TAX_POSTING" ∷ []

abbrev account : String → Direction → AccountRolePolicy
account code direction = record { account_codes = code ∷ []; direction = direction }

abbrev pub policy : ReconciliationPolicy
policy = record {
  schema_version = "1.0";
  policy_id = "razorpay_inr_v1";
  version = "1.0.0";
  currency = "INR";
  dates = record {
    settlement_to_bank_min_days = pos 0;
    settlement_to_bank_max_days = pos 3;
    bank_to_erp_max_days = pos 3;
  };
  tolerances_minor =
      ("settlement_components", pos 0) ∷ ("bank_receipt", pos 0) ∷ ("erp_posting", pos 0) ∷ [];
  component_signs =
      ("PAYMENT", pos 1)
      ∷ ("REFUND", negsuc 0)
      ∷ ("FEE", negsuc 0)
      ∷ ("TAX", negsuc 0)
      ∷ ("ADJUSTMENT_CREDIT", pos 1)
      ∷ ("ADJUSTMENT_DEBIT", negsuc 0)
      ∷ [];
  account_roles =
      ("bank", account "110000" Direction.debit)
      ∷ ("clearing", account "120000" Direction.credit)
      ∷ ("fee", account "510000" Direction.debit)
      ∷ ("tax", account "140000" Direction.debit)
      ∷ [];
  grouping = record { max_candidates = pos 12; max_group_size = pos 4; max_valid_groups = pos 2 };
  auto_clear_enabled = true;
  auto_clear_required_checks = required;
  support_scoring_bps =
      ("amount", pos 5000)
      ∷ ("reference", pos 2500)
      ∷ ("date", pos 1500)
      ∷ ("narration", pos 1000)
      ∷ [];
  exceptions =
      (
        "UNKNOWN_UNRESOLVED",
        record {
          category = ExceptionCategory.unknown;
          severity = Severity.medium;
          action = ActionType.manual_review;
          requires_company_input = true;
        },
      )
      ∷ [];
}

-- an event with the fields that the rules read
abbrev pub event :
    String
    → SourceType
    → EventType
    → Direction
    → ℕ
    → ℕ
    → Option String
    → Option String
    → Option String
    → Option String
    → CanonicalEvent
event id source kind direction amount day external settlement utr account_code = record {
  event_id = id;
  run_id = "run_1";
  source_type = source;
  source_record_id = id;
  legal_entity_id = "entity_1";
  event_type = kind;
  money = record { amount_minor = amount; currency = "INR" };
  direction = direction;
  event_at = record { date = day; clock = 0; aware = true };
  value_date = some day;
  external_reference = external;
  settlement_reference = settlement;
  payment_reference = none;
  bank_utr = utr;
  account_code = account_code;
  narration = none;
  lineage = record {
    source_file_id = "file";
    file_sha256 = "e3b0c44298fc1c149afbf4c8996fb92427ae41e4649b934ca495991b7852b855";
    table_name = "rows";
    row_number = pos 1;
    raw_row_hash = "e3b0c44298fc1c149afbf4c8996fb92427ae41e4649b934ca495991b7852b855";
  };
  raw_fields = [];
  mapping_profile_version = "v1";
}

abbrev pub component : String → EventType → Direction → ℕ → CanonicalEvent
component id kind direction amount =
    event id SourceType.gateway kind direction amount 739000 none (some "S1") none none

abbrev pub posting : String → Direction → ℕ → String → CanonicalEvent
posting id direction amount code =
    event id SourceType.erp EventType.erp_journal_line direction amount 739001 (some "S1") none none
      (some code)

abbrev pub settlement_row : CanonicalEvent
settlement_row =
    event "g4" SourceType.gateway EventType.settlement Direction.credit 976 739000 (some "UTR1")
      (some "S1") none none

abbrev pub receipt : String → ℕ → String → CanonicalEvent
receipt id amount utr =
    event id SourceType.bank EventType.bank_credit Direction.credit amount 739001 none none
      (some utr) none

abbrev pub settled : List CanonicalEvent
settled =
    component "g1" EventType.payment Direction.credit 1000
    ∷ component "g2" EventType.fee Direction.debit 20
    ∷ component "g3" EventType.tax Direction.debit 4
    ∷ settlement_row
    ∷ posting "j:1" Direction.debit 976 "110000"
    ∷ posting "j:2" Direction.debit 20 "510000"
    ∷ posting "j:3" Direction.debit 4 "140000"
    ∷ posting "j:4" Direction.credit 1000 "120000"
    ∷ receipt "b1" 976 "UTR1"
    ∷ []
