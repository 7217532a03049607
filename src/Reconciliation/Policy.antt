-- ===== src/Reconciliation/Policy.antt =====
-- core/vericlose/reconciliation/policy.py: the policy record and its lookups. A mapping is an
-- association list.
pub mod Yaml
pub mod Entries
pub mod Load
pub mod Loaded
pub mod Frozen
mod Examples
use veri_close.Prelude.{
  String, str_append, str_eq, Bool, Option, none, some, List, [], ◌∷◌, ℤ, Result, ok, key_error,
  ◌>>=◌, or_raise, if◌then◌else◌,
}
use veri_close.Domain.Enums.{
  ActionType, Direction, EventType, ExceptionCategory, Severity, direction_value, event_type_value,
}

abbrev pub Dict : Type 0 → Type 0
Dict V = List (String × V)

-- mapping.get(key)
unfoldable pub get : {V : Type 0} → Dict V → String → Option V
get [] k = none
get ((j, v) ∷ d) k = let rest = get d k in if str_eq j k then some v else rest

pub record DatePolicy : Type 0 where
  pub settlement_to_bank_min_days : ℤ
  pub settlement_to_bank_max_days : ℤ
  pub bank_to_erp_max_days : ℤ

pub record AccountRolePolicy : Type 0 where
  pub account_codes : List String
  pub direction : Direction

pub record GroupingPolicy : Type 0 where
  pub max_candidates : ℤ
  pub max_group_size : ℤ
  pub max_valid_groups : ℤ

pub record ExceptionPolicy : Type 0 where
  pub category : ExceptionCategory
  pub severity : Severity
  pub action : ActionType
  pub requires_company_input : Bool

pub record ReconciliationPolicy : Type 0 where
  pub schema_version : String
  pub policy_id : String
  pub version : String
  pub currency : String
  pub dates : DatePolicy
  pub tolerances_minor : Dict ℤ
  pub component_signs : Dict ℤ
  pub account_roles : Dict AccountRolePolicy
  pub grouping : GroupingPolicy
  pub auto_clear_enabled : Bool
  pub auto_clear_required_checks : List String
  pub support_scoring_bps : Dict ℤ
  pub exceptions : Dict ExceptionPolicy

unfoldable pub versioned_id : ReconciliationPolicy → String
versioned_id p = str_append p.policy_id (str_append "@" p.version)

unfoldable pub tolerance : ReconciliationPolicy → String → Result ℤ
unfolding get
tolerance p name = or_raise (get p.tolerances_minor name) (key_error "unknown tolerance")

-- the key of an event type and a direction among the signs
unfoldable pub sign_key : EventType → Direction → String
sign_key EventType.adjustment direction = str_append "ADJUSTMENT_" (direction_value direction)
sign_key event_type direction = event_type_value event_type

unfoldable pub component_sign : ReconciliationPolicy → EventType → Direction → Result ℤ
unfolding get sign_key
component_sign p event_type direction =
    or_raise (get p.component_signs (sign_key event_type direction))
      (key_error "component sign is not configured")

unfoldable pub role : ReconciliationPolicy → String → Result AccountRolePolicy
unfolding get
role p name = or_raise (get p.account_roles name) (key_error "unknown account role")

-- The fallback is looked up first, whether or not it is needed.
unfoldable pub exception : ReconciliationPolicy → String → Result ExceptionPolicy
unfolding get
exception p reason_code = do
  fallback ← or_raise (get p.exceptions "UNKNOWN_UNRESOLVED") (key_error "UNKNOWN_UNRESOLVED")
  ok (elim (get p.exceptions reason_code) [ some found ↦ found | none ↦ fallback ])
