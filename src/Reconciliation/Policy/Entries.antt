-- ===== src/Reconciliation/Policy/Entries.antt =====
-- reconciliation/policy.py: the members of the enums by their values, and one account role and one
-- exception of the file in `load_policy`.
use veri_close.Prelude.{
  String, Bool, false, not, ◌&&◌, Option, none, some, List, [], ◌∷◌, map, Result, ok, err,
  value_error, type_error, key_error, ◌>>=◌, or_raise, all, is_blank, non_empty, if◌then◌else◌,
}
use veri_close.Domain.Enums.{ActionType, Direction, ExceptionCategory, Severity}
use veri_close.Reconciliation.Policy.{AccountRolePolicy, Dict, ExceptionPolicy, get}
use veri_close.Reconciliation.Policy.Yaml.{Yaml, items, mapping}

-- Direction(value), ExceptionCategory(value), Severity(value), ActionType(value)
abbrev pub direction_named : Dict Direction
direction_named = ("DEBIT", Direction.debit) ∷ ("CREDIT", Direction.credit) ∷ []

abbrev pub category_named : Dict ExceptionCategory
category_named =
    ("DATA_QUALITY", ExceptionCategory.data_quality)
    ∷ ("REFERENCE", ExceptionCategory.reference)
    ∷ ("TIMING", ExceptionCategory.timing)
    ∷ ("AMOUNT", ExceptionCategory.amount)
    ∷ ("DUPLICATE", ExceptionCategory.duplicate)
    ∷ ("MISSING_SOURCE", ExceptionCategory.missing_source)
    ∷ ("ACCOUNTING", ExceptionCategory.accounting)
    ∷ ("POLICY", ExceptionCategory.policy)
    ∷ ("AMBIGUOUS", ExceptionCategory.ambiguous)
    ∷ ("UNKNOWN", ExceptionCategory.unknown)
    ∷ []

abbrev pub severity_named : Dict Severity
severity_named =
    ("LOW", Severity.low)
    ∷ ("MEDIUM", Severity.medium)
    ∷ ("HIGH", Severity.high)
    ∷ ("CRITICAL", Severity.critical)
    ∷ []

abbrev pub action_named : Dict ActionType
action_named =
    ("JOURNAL_EXPORT", ActionType.journal_export)
    ∷ ("CLARIFICATION_REQUEST", ActionType.clarification_request)
    ∷ ("MAPPING_CORRECTION", ActionType.mapping_correction)
    ∷ ("CORRECTED_DATA_IMPORT", ActionType.corrected_data_import)
    ∷ ("WAIT", ActionType.wait)
    ∷ ("ACCEPT_DIFFERENCE", ActionType.accept_difference)
    ∷ ("MANUAL_REVIEW", ActionType.manual_review)
    ∷ ("NO_ACTION", ActionType.no_action)
    ∷ []

-- the member of an enum by its value
unfoldable pub member : {V : Type 0} → Dict V → Yaml → Result V
unfolding get
member named (Yaml.text s) = or_raise (get named s) (value_error "is not a valid member")
member named _ = err (value_error "is not a valid member")

-- mapping[name]
unfoldable pub field_of : {V : Type 0} → Dict V → String → Result V
unfolding get
field_of d name = or_raise (get d name) (key_error name)

abbrev pub root_keys : List String
root_keys =
    "schema_version" ∷ "policy_id" ∷ "version" ∷ "currency" ∷ "dates" ∷ "tolerances_minor"
    ∷ "component_signs" ∷ "account_roles" ∷ "grouping" ∷ "auto_clear" ∷ "support_scoring_bps"
    ∷ "exceptions" ∷ []

-- a value that is a text and not blank
abbrev pub is_visible_text : Yaml → Bool
is_visible_text (Yaml.text s) = not (is_blank s)
is_visible_text _ = false

abbrev pub text_in : Yaml → String
text_in (Yaml.text s) = s
text_in _ = ""

-- account_codes, once it is known to be a list of visible texts
abbrev pub visible_codes : Option Yaml → Option (List String)
visible_codes (some (Yaml.list listed)) =
    if non_empty (items listed) && all is_visible_text (items listed)
    then some (map text_in (items listed))
    else none
visible_codes _ = none

-- one round of the loop over the account roles
unfoldable pub load_role : String × Yaml → Result (String × AccountRolePolicy)
unfolding mapping field_of items all is_blank member
load_role (name, raw) = do
  fields ← mapping raw "account_roles"
  account_codes ←
      or_raise (visible_codes (get fields "account_codes"))
        (value_error "account_codes must be non-empty strings")
  value ← field_of fields "direction"
  direction ← member direction_named value
  ok (name, record { account_codes = account_codes; direction = direction })

abbrev pub as_bool : Option Yaml → Option Bool
as_bool (some (Yaml.bool b)) = some b
as_bool _ = none

abbrev pub as_items : Option Yaml → Option (List Yaml)
as_items (some (Yaml.list values)) = if non_empty (items values) then some (items values) else none
as_items _ = none

-- one round of the loop over the exceptions
unfoldable pub load_exception : String × Yaml → Result (String × ExceptionPolicy)
unfolding mapping field_of member
load_exception (code, raw) = do
  fields ← mapping raw "exceptions"
  company_input ←
      or_raise (as_bool (get fields "requires_company_input"))
        (type_error "requires_company_input must be boolean")
  category_value ← field_of fields "category"
  category ← member category_named category_value
  severity_value ← field_of fields "severity"
  severity ← member severity_named severity_value
  action_value ← field_of fields "action"
  action ← member action_named action_value
  ok (
    code,
    record {
      category = category;
      severity = severity;
      action = action;
      requires_company_input = company_input;
    },
  )
