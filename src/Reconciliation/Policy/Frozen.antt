-- ===== src/Reconciliation/Policy/Frozen.antt =====
-- The file config/policies/razorpay_inr_v1.yaml, as it is parsed.
use veri_close.Prelude.{
  traverse, ◌+ℤ◌, all, any, contains, is_blank, upper, of_codes, Result, String, Bool, true, false,
  List, [], ◌∷◌, ℤ, pos, negsuc,
}
use veri_close.Reconciliation.Policy.{ReconciliationPolicy, get}
use veri_close.Reconciliation.Policy.Entries.{field_of, load_exception, load_role, member}
use veri_close.Reconciliation.Policy.Load.{
  assemble, load_auto_clear, load_exceptions, load_numbers, load_parts, load_policy, load_roles,
  sum_values, upper_text, validate_ranges,
}
use veri_close.Reconciliation.Policy.Yaml.{
  Yaml, Items, Fields, has_odd_key, int_mapping, int_values, items, mapping, pairs, require_keys,
  same_set, str_of, text_of,
}

-- `load_policy`, with all that it calls open to a run
unfoldable pub run_load : (Yaml → String) → Yaml → Result ReconciliationPolicy
unfolding load_policy mapping require_keys field_of str_of upper_text load_parts load_numbers
    int_mapping int_values sum_values load_roles traverse load_role load_auto_clear load_exceptions
    load_exception assemble of_codes upper ◌+ℤ◌ all any contains is_blank member validate_ranges
    has_odd_key items pairs same_set text_of get
run_load = load_policy

abbrev texts : List String → Items
texts [] = Items.no_items
texts (s ∷ rest) = Items.item (Yaml.text s) (texts rest)

abbrev entries : List (String × Yaml) → Fields
entries [] = Fields.no_fields
entries ((key, value) ∷ rest) = Fields.field key value (entries rest)

abbrev section : List (String × Yaml) → Yaml
section fields = Yaml.dict (entries fields)

abbrev numbers : List (String × ℤ) → Fields
numbers [] = Fields.no_fields
numbers ((key, value) ∷ rest) = Fields.field key (Yaml.int value) (numbers rest)

abbrev account : String → String → Yaml
account code direction =
    section
      (("account_codes", Yaml.list (texts (code ∷ []))) ∷ ("direction", Yaml.text direction) ∷ [])

abbrev case_of : String → String → String → Bool → Yaml
case_of category severity action company_input = section (
    ("category", Yaml.text category)
    ∷ ("severity", Yaml.text severity)
    ∷ ("action", Yaml.text action)
    ∷ ("requires_company_input", Yaml.bool company_input)
    ∷ [])

abbrev cases : List (String × Yaml)
cases =
    ("REFERENCE_MISMATCH", case_of "REFERENCE" "MEDIUM" "CLARIFICATION_REQUEST" true)
    ∷ ("DUPLICATE_IDENTIFIER", case_of "DUPLICATE" "CRITICAL" "JOURNAL_EXPORT" false)
    ∷ ("DUPLICATE_ERP_POSTING", case_of "DUPLICATE" "CRITICAL" "JOURNAL_EXPORT" false)
    ∷ ("MISSING_BANK_RECEIPT", case_of "MISSING_SOURCE" "HIGH" "CLARIFICATION_REQUEST" true)
    ∷ ("MISSING_ERP_POSTING", case_of "MISSING_SOURCE" "HIGH" "JOURNAL_EXPORT" false)
    ∷ ("SETTLEMENT_COMPONENT_MISMATCH", case_of "AMOUNT" "HIGH" "CLARIFICATION_REQUEST" true)
    ∷ ("BANK_AMOUNT_MISMATCH", case_of "AMOUNT" "CRITICAL" "CLARIFICATION_REQUEST" true)
    ∷ ("BANK_DATE_OUT_OF_RANGE", case_of "TIMING" "MEDIUM" "WAIT" false)
    ∷ ("ERP_JOURNAL_UNBALANCED", case_of "ACCOUNTING" "CRITICAL" "CORRECTED_DATA_IMPORT" true)
    ∷ ("BANK_RECEIPT_AMBIGUOUS", case_of "AMBIGUOUS" "HIGH" "MANUAL_REVIEW" false)
    ∷ ("ORPHAN_BANK_CREDIT", case_of "MISSING_SOURCE" "HIGH" "CLARIFICATION_REQUEST" true)
    ∷ ("ORPHAN_ERP_POSTING", case_of "MISSING_SOURCE" "HIGH" "MANUAL_REVIEW" true)
    ∷ ("ERP_POSTING_MISMATCH", case_of "ACCOUNTING" "CRITICAL" "CORRECTED_DATA_IMPORT" true)
    ∷ ("UNKNOWN_UNRESOLVED", case_of "UNKNOWN" "MEDIUM" "MANUAL_REVIEW" true)
    ∷ []

abbrev pub frozen : Yaml
frozen = section (
    ("schema_version", Yaml.text "1.0")
    ∷ ("policy_id", Yaml.text "razorpay_inr_v1")
    ∷ ("version", Yaml.text "1.0.0")
    ∷ ("currency", Yaml.text "INR")
    ∷ (
      "dates",
      Yaml.dict (
          numbers (
            ("settlement_to_bank_min_days", pos 0)
            ∷ ("settlement_to_bank_max_days", pos 3)
            ∷ ("bank_to_erp_max_days", pos 3)
            ∷ [])),
    )
    ∷ (
      "tolerances_minor",
      Yaml.dict (
          numbers (
            ("settlement_components", pos 0)
            ∷ ("bank_receipt", pos 0)
            ∷ ("erp_posting", pos 0)
            ∷ [])),
    )
    ∷ (
      "component_signs",
      Yaml.dict (
          numbers (
            ("PAYMENT", pos 1)
            ∷ ("REFUND", negsuc 0)
            ∷ ("FEE", negsuc 0)
            ∷ ("TAX", negsuc 0)
            ∷ ("ADJUSTMENT_CREDIT", pos 1)
            ∷ ("ADJUSTMENT_DEBIT", negsuc 0)
            ∷ [])),
    )
    ∷ (
      "account_roles",
      section (
          ("bank", account "110000" "DEBIT")
          ∷ ("clearing", account "120000" "CREDIT")
          ∷ ("fee", account "510000" "DEBIT")
          ∷ ("tax", account "140000" "DEBIT")
          ∷ []),
    )
    ∷ (
      "grouping",
      Yaml.dict (
          numbers (
            ("max_candidates", pos 12)
            ∷ ("max_group_size", pos 4)
            ∷ ("max_valid_groups", pos 2)
            ∷ [])),
    )
    ∷ (
      "auto_clear",
      section (
          ("enabled", Yaml.bool true)
          ∷ (
            "required_checks",
            Yaml.list (
                texts (
                  "GATEWAY_SETTLEMENT_UNIQUE" ∷ "SETTLEMENT_COMPONENT_INVARIANT"
                  ∷ "BANK_RECEIPT_PRESENT" ∷ "BANK_RECEIPT_AMOUNT" ∷ "BANK_RECEIPT_DIRECTION"
                  ∷ "BANK_RECEIPT_REFERENCE" ∷ "BANK_RECEIPT_DATE" ∷ "BANK_RECEIPT_UNIQUE"
                  ∷ "ERP_JOURNAL_PRESENT" ∷ "ERP_JOURNAL_UNIQUE" ∷ "ERP_JOURNAL_BALANCED"
                  ∷ "ERP_BANK_POSTING" ∷ "ERP_CLEARING_POSTING" ∷ "ERP_FEE_POSTING"
                  ∷ "ERP_TAX_POSTING" ∷ [])),
          )
          ∷ []),
    )
    ∷ (
      "support_scoring_bps",
      Yaml.dict (
          numbers (
            ("amount", pos 5000)
            ∷ ("reference", pos 2500)
            ∷ ("date", pos 1500)
            ∷ ("narration", pos 1000)
            ∷ [])),
    )
    ∷ ("exceptions", section cases)
    ∷ [])
