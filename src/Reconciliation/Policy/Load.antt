-- ===== src/Reconciliation/Policy/Load.antt =====
-- reconciliation/policy.py: `load_policy` from what `yaml.safe_load` returned, and
-- `_validate_ranges`.
use veri_close.Prelude.{
  String, str_eq, Bool, not, ◌||◌, List, [], ◌∷◌, map, ℤ, pos, negsuc, ◌+ℤ◌, ltb_ℤ, eqb_ℤ, Result,
  ok, value_error, type_error, ◌>>=◌, ◌>>◌, raise_if, or_raise, traverse, all, any, contains, codes,
  upper, of_codes,
}
use veri_close.Reconciliation.Policy.{
  AccountRolePolicy, Dict, ExceptionPolicy, ReconciliationPolicy, get,
}
use veri_close.Reconciliation.Policy.Yaml.{
  Yaml, items, mapping, int_mapping, text_of, require_keys, same_set, keys, value_of, str_of,
}
use veri_close.Reconciliation.Policy.Entries.{
  load_role, load_exception, as_bool, as_items, field_of, root_keys,
}

-- sum(mapping.values())
unfoldable pub sum_values : Dict ℤ → ℤ
unfolding ◌+ℤ◌
sum_values [] = pos 0
sum_values ((key, value) ∷ rest) = value +ℤ sum_values rest

abbrev pub is_negative : String × ℤ → Bool
is_negative pair = ltb_ℤ (value_of pair) (pos 0)

abbrev pub is_sign : String × ℤ → Bool
is_sign pair = eqb_ℤ (value_of pair) (negsuc 0) || eqb_ℤ (value_of pair) (pos 1)

abbrev pub role_names : List String
role_names = "bank" ∷ "clearing" ∷ "fee" ∷ "tax" ∷ []

-- _validate_ranges
unfoldable pub validate_ranges : ReconciliationPolicy → Result (Unit {0})
validate_ranges p = do
  raise_if (ltb_ℤ p.dates.settlement_to_bank_min_days (pos 0))
      (value_error "settlement_to_bank_min_days cannot be negative")
  raise_if (ltb_ℤ p.dates.settlement_to_bank_max_days p.dates.settlement_to_bank_min_days)
      (value_error "settlement bank date range is inverted")
  raise_if (ltb_ℤ p.grouping.max_candidates (pos 1) || ltb_ℤ p.grouping.max_group_size (pos 1))
      (value_error "grouping bounds must be positive")
  raise_if (ltb_ℤ p.grouping.max_candidates p.grouping.max_group_size)
      (value_error "max_group_size cannot exceed max_candidates")
  raise_if (ltb_ℤ p.grouping.max_valid_groups (pos 2))
      (value_error "max_valid_groups must permit ambiguity detection")

-- the integer mappings of the file
pub record Numbers : Type 0 where
  pub dates : Dict ℤ
  pub tolerances : Dict ℤ
  pub signs : Dict ℤ
  pub grouping : Dict ℤ
  pub scoring : Dict ℤ

unfoldable pub load_numbers : Dict Yaml → Result Numbers
unfolding any all
load_numbers root = do
  dates_value ← field_of root "dates"
  dates ← int_mapping dates_value "dates"
  tolerances_value ← field_of root "tolerances_minor"
  tolerances ← int_mapping tolerances_value "tolerances_minor"
  signs_value ← field_of root "component_signs"
  signs ← int_mapping signs_value "component_signs"
  grouping_value ← field_of root "grouping"
  grouping ← int_mapping grouping_value "grouping"
  scoring_value ← field_of root "support_scoring_bps"
  scoring ← int_mapping scoring_value "support_scoring_bps"
  raise_if (any is_negative tolerances) (value_error "amount tolerances cannot be negative")
  raise_if (not (all is_sign signs)) (value_error "component signs must be -1 or 1")
  raise_if (not (eqb_ℤ (sum_values scoring) (pos 10_000)))
      (value_error "support scoring weights must total 10000 bps")
  ok (record {
    dates = dates;
    tolerances = tolerances;
    signs = signs;
    grouping = grouping;
    scoring = scoring;
  })

unfoldable pub load_roles : Dict Yaml → Result (Dict AccountRolePolicy)
load_roles root = do
  value ← field_of root "account_roles"
  fields ← mapping value "account_roles"
  roles ← traverse load_role fields
  raise_if (not (same_set (keys roles) role_names))
      (value_error "account_roles must define bank, clearing, fee, and tax")
  ok roles

pub record AutoClear : Type 0 where
  pub enabled : Bool
  pub required_checks : List Yaml

unfoldable pub load_auto_clear : Dict Yaml → Result AutoClear
unfolding get items
load_auto_clear root = do
  value ← field_of root "auto_clear"
  fields ← mapping value "auto_clear"
  enabled ←
      or_raise (as_bool (get fields "enabled")) (type_error "auto_clear.enabled must be a boolean")
  required_checks ←
      or_raise (as_items (get fields "required_checks"))
        (value_error "auto_clear.required_checks must be non-empty")
  ok (record { enabled = enabled; required_checks = required_checks })

unfoldable pub load_exceptions : Dict Yaml → Result (Dict ExceptionPolicy)
unfolding contains
load_exceptions root = do
  value ← field_of root "exceptions"
  fields ← mapping value "exceptions"
  exceptions ← traverse load_exception fields
  raise_if (not (contains "UNKNOWN_UNRESOLVED" (keys exceptions)))
      (value_error "policy requires UNKNOWN_UNRESOLVED fallback")
  ok exceptions

-- the value that is returned, before its ranges are validated
unfoldable pub assemble :
    (Yaml → String)
    → Dict Yaml
    → String
    → Numbers
    → Dict AccountRolePolicy
    → AutoClear
    → Dict ExceptionPolicy
    → Result ReconciliationPolicy
assemble show root currency numbers roles auto_clear exceptions = do
  policy_id_value ← field_of root "policy_id"
  policy_id ← text_of policy_id_value "policy_id"
  version_value ← field_of root "version"
  version ← text_of version_value "version"
  min_days ← field_of numbers.dates "settlement_to_bank_min_days"
  max_days ← field_of numbers.dates "settlement_to_bank_max_days"
  erp_days ← field_of numbers.dates "bank_to_erp_max_days"
  max_candidates ← field_of numbers.grouping "max_candidates"
  max_group_size ← field_of numbers.grouping "max_group_size"
  max_valid_groups ← field_of numbers.grouping "max_valid_groups"
  ok (record {
    schema_version = "1.0";
    policy_id = policy_id;
    version = version;
    currency = currency;
    dates = record {
      settlement_to_bank_min_days = min_days;
      settlement_to_bank_max_days = max_days;
      bank_to_erp_max_days = erp_days;
    };
    tolerances_minor = numbers.tolerances;
    component_signs = numbers.signs;
    account_roles = roles;
    grouping = record {
      max_candidates = max_candidates;
      max_group_size = max_group_size;
      max_valid_groups = max_valid_groups;
    };
    auto_clear_enabled = auto_clear.enabled;
    auto_clear_required_checks = map (str_of show) auto_clear.required_checks;
    support_scoring_bps = numbers.scoring;
    exceptions = exceptions;
  })

-- from the integer mappings to the end
unfoldable pub load_parts : (Yaml → String) → Dict Yaml → String → Result ReconciliationPolicy
load_parts show root currency = do
  numbers ← load_numbers root
  roles ← load_roles root
  auto_clear ← load_auto_clear root
  exceptions ← load_exceptions root
  result ← assemble show root currency numbers roles auto_clear exceptions
  validate_ranges result
  ok result

-- str(value).upper()
unfoldable pub upper_text : (Yaml → String) → Yaml → String
unfolding upper of_codes str_of
upper_text show value = of_codes (upper (codes (str_of show value)))

-- load_policy of the payload
unfoldable pub load_policy : (Yaml → String) → Yaml → Result ReconciliationPolicy
load_policy show payload = do
  root ← mapping payload "policy root"
  require_keys root root_keys
  schema_version ← field_of root "schema_version"
  raise_if (not (str_eq (str_of show schema_version) "1.0"))
      (value_error "unsupported policy schema_version")
  currency ← field_of root "currency"
  raise_if (not (str_eq (upper_text show currency) "INR"))
      (value_error "the frozen MVP policy must use INR")
  load_parts show root (upper_text show currency)
