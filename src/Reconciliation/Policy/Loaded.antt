-- ===== src/Reconciliation/Policy/Loaded.antt =====
-- What a policy that was loaded from a file is known to be.
use veri_close.Prelude.{
  String, true, false, ◌≡◌, refl, List, [], ◌∷◌, pos, ◌≤ℤ◌, ok, arith, all, any, non_empty,
  Result-cases, eqb_ℤ→eq, contains_elim, all-holds, ◌∙◌, subst, Option-cases, eqb_ℤ, map, contains,
  Option, some, str_eq, eq_iff, str_eq→eq, Bool-cases, inl, inr,
}
use veri_close.Reconciliation.Policy.{
  AccountRolePolicy, Dict, ExceptionPolicy, ReconciliationPolicy, exception, get, role,
}
use veri_close.Reconciliation.Policy.Entries.{as_items, field_of}
use veri_close.Reconciliation.Policy.Load.{
  is_negative, is_sign, load_policy, load_numbers, load_roles, load_auto_clear, load_exceptions,
  load_parts, upper_text, assemble, Numbers, AutoClear, role_names, sum_values, validate_ranges,
}
use veri_close.Reconciliation.Policy.Yaml.{Yaml, items, mapping, str_of, keys, same_set}

pub record IsLoaded (p : ReconciliationPolicy) : Type 0 where
  pub currency : p.currency ≡ "INR"
  pub tolerances : any is_negative p.tolerances_minor ≡ false
  pub signs : all is_sign p.component_signs ≡ true
  pub weights : sum_values p.support_scoring_bps ≡ pos 10_000
  pub min_days : pos 0 ≤ℤ p.dates.settlement_to_bank_min_days
  pub window : p.dates.settlement_to_bank_min_days ≤ℤ p.dates.settlement_to_bank_max_days
  pub size : pos 1 ≤ℤ p.grouping.max_group_size
  pub sizes : p.grouping.max_group_size ≤ℤ p.grouping.max_candidates
  pub two_groups : pos 2 ≤ℤ p.grouping.max_valid_groups
  pub checks : non_empty p.auto_clear_required_checks ≡ true
  pub roles : same_set (keys p.account_roles) role_names ≡ true
  pub fallback : contains "UNKNOWN_UNRESOLVED" (keys p.exceptions) ≡ true

load_numbers-facts :
    (root : Dict Yaml) (n : Numbers)
    → load_numbers root ≡ ok n
    → (any is_negative n.tolerances ≡ false)
      × (all is_sign n.signs ≡ true)
      × (eqb_ℤ (sum_values n.scoring) (pos 10_000) ≡ true)
unfolding load_numbers
load_numbers-facts root n h = ground arith

load_roles-facts :
    (root : Dict Yaml) (roles : Dict AccountRolePolicy)
    → load_roles root ≡ ok roles
    → same_set (keys roles) role_names ≡ true
unfolding load_roles
load_roles-facts root roles h = ground arith

load_exceptions-facts :
    (root : Dict Yaml) (exceptions : Dict ExceptionPolicy)
    → load_exceptions root ≡ ok exceptions
    → contains "UNKNOWN_UNRESOLVED" (keys exceptions) ≡ true
unfolding load_exceptions
load_exceptions-facts root exceptions h = ground arith

as_items-non_empty : (o : Option Yaml) (xs : List Yaml) → as_items o ≡ some xs → non_empty xs ≡ true
as_items-non_empty (some (Yaml.list values)) xs h = elim (Bool-cases (non_empty (items values))) [
  | inl full ↦ ground (arith, full)
  | inr none_there ↦ absurd (ground (arith, none_there))
]
as_items-non_empty o xs h = cc

load_auto_clear-facts :
    (root : Dict Yaml) (a : AutoClear)
    → load_auto_clear root ≡ ok a
    → non_empty a.required_checks ≡ true
unfolding load_auto_clear
load_auto_clear-facts root a h = elim (Result-cases (field_of root "auto_clear")) [
  | inr (x, f) ↦ absurd (ground arith)
  | inl (value, e) ↦ elim (Result-cases (mapping value "auto_clear")) [
    | inr (x, f) ↦ absurd (ground arith)
    | inl (fields, f) ↦ elim (Option-cases (as_items (get fields "required_checks"))) [
      | inl nothing ↦ absurd (ground (arith, nothing))
      | inr (checks, found) ↦
          let same : checks ≡ a.required_checks = ground (arith, found) in
          subst (λ xs. non_empty xs ≡ true) same (as_items-non_empty _ checks found)
    ]
  ]
]

assemble-facts :
    (show : Yaml → String) (root : Dict Yaml) (currency : String) (n : Numbers)
    (roles : Dict AccountRolePolicy) (a : AutoClear) (exceptions : Dict ExceptionPolicy)
    (p : ReconciliationPolicy)
    → assemble show root currency n roles a exceptions ≡ ok p
    → (p.currency ≡ currency)
      × (p.tolerances_minor ≡ n.tolerances)
      × (p.component_signs ≡ n.signs)
      × (p.support_scoring_bps ≡ n.scoring)
      × (p.account_roles ≡ roles)
      × (p.auto_clear_required_checks ≡ map (str_of show) a.required_checks)
      × (p.exceptions ≡ exceptions)
unfolding assemble
assemble-facts show root currency n roles a exceptions p h = ground arith

non_empty-map : {A B : Type 0} (f : A → B) (xs : List A) → non_empty (map f xs) ≡ non_empty xs
non_empty-map f [] = refl
non_empty-map f (x ∷ xs) = refl

-- What `_validate_ranges` has tested.
record InRange (p : ReconciliationPolicy) : Type 0 where
  min_days : pos 0 ≤ℤ p.dates.settlement_to_bank_min_days
  window : p.dates.settlement_to_bank_min_days ≤ℤ p.dates.settlement_to_bank_max_days
  size : pos 1 ≤ℤ p.grouping.max_group_size
  sizes : p.grouping.max_group_size ≤ℤ p.grouping.max_candidates
  two_groups : pos 2 ≤ℤ p.grouping.max_valid_groups

validate_ranges-InRange : (p : ReconciliationPolicy) → validate_ranges p ≡ ok tt → InRange p
unfolding validate_ranges
validate_ranges-InRange p h = record {
  min_days = ground arith;
  window = ground arith;
  size = ground arith;
  sizes = ground arith;
  two_groups = ground arith;
}

-- The parts that a policy was put together from.
record Parts (show : Yaml → String) (p : ReconciliationPolicy) : Type 0 where
  root : Dict Yaml
  currency : String
  is_inr : str_eq currency "INR" ≡ true
  numbers : Numbers
  numbers_ok : load_numbers root ≡ ok numbers
  roles : Dict AccountRolePolicy
  roles_ok : load_roles root ≡ ok roles
  auto_clear : AutoClear
  auto_clear_ok : load_auto_clear root ≡ ok auto_clear
  exceptions : Dict ExceptionPolicy
  exceptions_ok : load_exceptions root ≡ ok exceptions
  assembled : assemble show root currency numbers roles auto_clear exceptions ≡ ok p
  in_range : validate_ranges p ≡ ok tt

Parts-of_root :
    (show : Yaml → String) (root : Dict Yaml) (currency : String) (p : ReconciliationPolicy)
    → str_eq currency "INR" ≡ true
    → load_parts show root currency ≡ ok p
    → Parts show p
unfolding load_parts
Parts-of_root show root currency p inr_currency h = elim (Result-cases (load_numbers root)) [
  | inr (x, f) ↦ absurd (ground arith)
  | inl (numbers, e1) ↦ elim (Result-cases (load_roles root)) [
    | inr (x, f) ↦ absurd (ground arith)
    | inl (roles, e2) ↦ elim (Result-cases (load_auto_clear root)) [
      | inr (x, f) ↦ absurd (ground arith)
      | inl (auto_clear, e3) ↦ elim (Result-cases (load_exceptions root)) [
        | inr (x, f) ↦ absurd (ground arith)
        | inl (exceptions, e4) ↦ record {
          root = root;
          currency = currency;
          is_inr = inr_currency;
          numbers = numbers;
          numbers_ok = e1;
          roles = roles;
          roles_ok = e2;
          auto_clear = auto_clear;
          auto_clear_ok = e3;
          exceptions = exceptions;
          exceptions_ok = e4;
          assembled = ground arith;
          in_range = ground arith;
        }
      ]
    ]
  ]
]

Parts-of_policy :
    (show : Yaml → String) (payload : Yaml) (p : ReconciliationPolicy)
    → load_policy show payload ≡ ok p
    → Parts show p
unfolding load_policy
Parts-of_policy show payload p h = elim (Result-cases (mapping payload "policy root")) [
  | inr (x, f) ↦ absurd (ground arith)
  | inl (root, e) ↦ elim (Result-cases (field_of root "currency")) [
    | inr (x, f) ↦ absurd (ground arith)
    | inl (currency, f) ↦
        Parts-of_root show root (upper_text show currency) p (ground arith) (ground arith)
  ]
]

-- A policy that `load_policy` returns is in INR; no tolerance is negative, every sign is 1 or -1, and
-- the support weights add up to 10000; the date window starts at 0 or later and is not inverted;
-- groups may have at least one event and no more than there may be candidates, and the search may
-- find two groups; some checks are required; exactly the four account roles are defined, and so is
-- the fallback exception.
pub load_policy-IsLoaded :
    (show : Yaml → String) (payload : Yaml) (p : ReconciliationPolicy)
    → load_policy show payload ≡ ok p
    → IsLoaded p
load_policy-IsLoaded show payload p h =
    let q = Parts-of_policy show payload p h in
    let (currency, tolerances, signs, scoring, roles, checks, exceptions) =
      assemble-facts show q.root q.currency q.numbers q.roles q.auto_clear q.exceptions p
        q.assembled in
    let (not_negative, signed, weighed) = load_numbers-facts q.root q.numbers q.numbers_ok in
    let ranges = validate_ranges-InRange p q.in_range in
    record {
      currency = currency ∙ str_eq→eq q.currency "INR" q.is_inr;
      tolerances = rw tolerances not_negative;
      signs = rw signs signed;
      weights = rw scoring (eqb_ℤ→eq (sum_values q.numbers.scoring) (pos 10_000) weighed);
      min_days = ranges.min_days;
      window = ranges.window;
      size = ranges.size;
      sizes = ranges.sizes;
      two_groups = ranges.two_groups;
      checks = rw checks (
          non_empty-map (str_of show) q.auto_clear.required_checks
          ∙ load_auto_clear-facts q.root q.auto_clear q.auto_clear_ok);
      roles = rw roles (load_roles-facts q.root q.roles q.roles_ok);
      fallback = rw exceptions (load_exceptions-facts q.root q.exceptions q.exceptions_ok);
    }

-- A key that a mapping has can be looked up.
get-of_key :
    {V : Type 0} (d : Dict V) (k : String)
    → contains k (keys d) ≡ true
    → (v : V) × (get d k ≡ some v)
unfolding get contains
get-of_key [] k h = absurd (ground arith)
get-of_key ((j, v) ∷ d) k h = elim (Bool-cases (str_eq j k)) [
  | inl same ↦ (v, rw same refl)
  | inr other ↦
      let (w, found) = get-of_key d k (ground (arith, eq_iff j k, eq_iff k j)) in
      (w, rw other found)
]

role_named :
    (p : ReconciliationPolicy) (name : String)
    → same_set (keys p.account_roles) role_names ≡ true
    → contains name role_names ≡ true
    → (r : AccountRolePolicy) × (role p name ≡ ok r)
unfolding role same_set
role_named p name h n =
    let has : contains name (keys p.account_roles) ≡ true =
      contains_elim (λ (x : String). contains x (keys p.account_roles) ≡ true) name role_names n
        (all-holds (λ (x : String). contains x (keys p.account_roles)) role_names (ground arith)) in
    let (r, found) = get-of_key p.account_roles name has in (r, ground (arith, found))

-- Under a policy that `load_policy` returned, no lookup of an exception policy raises, whatever the
-- reason code, and none of the account roles bank, clearing, fee and tax does.
pub load_policy-lookups :
    (show : Yaml → String) (payload : Yaml) (p : ReconciliationPolicy)
    → load_policy show payload ≡ ok p
    → ((code : String) → (e : ExceptionPolicy) × (exception p code ≡ ok e))
      × ((name : String)
          → contains name role_names ≡ true
          → (r : AccountRolePolicy) × (role p name ≡ ok r))
unfolding exception
load_policy-lookups show payload p h =
    let loaded = load_policy-IsLoaded show payload p h in
    let (fallback, found) = get-of_key p.exceptions "UNKNOWN_UNRESOLVED" loaded.fallback in
    (
      λ code. elim (Option-cases (get p.exceptions code)) [
        | inl nothing ↦ (fallback, ground (arith, found, nothing))
        | inr (e, own) ↦ (e, ground (arith, found, own))
      ],
      λ name n. role_named p name loaded.roles n,
    )
