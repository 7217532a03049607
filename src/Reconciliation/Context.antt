-- ===== src/Reconciliation/Context.antt =====
-- core/vericlose/reconciliation/context.py. A date is an ordinal; adding days to it overflows
-- outside the years 1 to 9999.
use veri_close.Prelude.{
  ℕ, String, str_eq, str_leb, Bool, true, false, not, ◌&&◌, ◌||◌, Option, none, some, List, [], ◌∷◌,
  map, ℤ, pos, ◌+ℤ◌, leb_ℤ, ltb_ℤ, ltb, nat_eq, Result, ok, err, value_error, overflow_error, ◌>>=◌,
  ◌>>◌, raise_if, filter, all, length, dedup, contains, sort_by, before_colon, if◌then◌else◌,
}
use veri_close.Domain.Enums.{EventType, is_gateway, is_bank, is_erp, is_credit}
use veri_close.Domain.Events.{CanonicalEvent, truthy}
use veri_close.Reconciliation.Indexes
use veri_close.Reconciliation.Indexes.{CandidateIndexes, Index, by_id, get, push}
use veri_close.Reconciliation.Policy.{ReconciliationPolicy}

pub record ReconciliationContext : Type 0 where
  pub run_id : String
  pub legal_entity_id : String
  pub events : List CanonicalEvent
  pub indexes : CandidateIndexes
  pub policy : ReconciliationPolicy

-- the set of the currencies is {currency}, of events that are not none
unfoldable pub only_currency : String → List CanonicalEvent → Bool
unfolding all
only_currency currency events =
    all (λ (e : CanonicalEvent). str_eq e.money.currency currency) events

-- the context of events that are not none
unfoldable pub build_from :
    CanonicalEvent → List CanonicalEvent → ReconciliationPolicy → Result ReconciliationContext
build_from first rest policy = do
  let events = first ∷ rest
  raise_if
      (not (nat_eq (length (dedup (map (λ (e : CanonicalEvent). e.run_id) events))) 1)
        || not (nat_eq (length (dedup (map (λ (e : CanonicalEvent). e.legal_entity_id) events))) 1))
      (value_error "events must belong to one run and one legal entity")
  raise_if (not (only_currency policy.currency events))
      (value_error "policy currency does not match events")
  let ordered = sort_by by_id events
  ok (record {
    run_id = first.run_id;
    legal_entity_id = first.legal_entity_id;
    events = ordered;
    indexes = Indexes.build ordered;
    policy = policy;
  })

-- ReconciliationContext.build
unfoldable pub build : List CanonicalEvent → ReconciliationPolicy → Result ReconciliationContext
build [] policy = err (value_error "reconciliation requires canonical events")
build (first ∷ rest) policy = build_from first rest policy

-- the settlement references of the gateway events
unfoldable pub gateway_references : List CanonicalEvent → List String
gateway_references [] = []
gateway_references (event ∷ events) =
    let rest = gateway_references events in
    if is_gateway event.source_type
    then elim event.settlement_reference [
      | none ↦ rest
      | some r ↦ if truthy (some r) then r ∷ rest else rest
    ]
    else rest

-- ReconciliationContext.settlement_references
unfoldable pub settlement_references : ReconciliationContext → List String
settlement_references context = sort_by str_leb (dedup (gateway_references context.events))

-- ReconciliationContext._same_scope
unfoldable pub same_scope : ReconciliationContext → CanonicalEvent → Bool
same_scope context event =
    str_eq event.legal_entity_id context.legal_entity_id
    && str_eq event.money.currency context.policy.currency

-- ReconciliationContext.gateway_settlement
unfoldable pub gateway_settlement : ReconciliationContext → String → List CanonicalEvent
gateway_settlement context reference =
    filter (λ (e : CanonicalEvent). is_gateway e.source_type && same_scope context e)
      (get str_eq reference context.indexes.by_settlement_reference)

-- the journal of an ERP line
unfoldable pub journal_id : CanonicalEvent → String
unfolding before_colon
journal_id event = before_colon event.source_record_id

-- grouped.setdefault(journal_id, []).append(event), for every event
unfoldable pub group_journals : Index String → List CanonicalEvent → Index String
unfolding push journal_id
group_journals grouped [] = grouped
group_journals grouped (event ∷ events) =
    group_journals (push str_eq (journal_id event) event grouped) events

-- the order of grouped.items(), whose keys differ
abbrev pub by_key : String × List CanonicalEvent → String × List CanonicalEvent → Bool
by_key (a, _) (b, _) = str_leb a b

abbrev pub lines_of : String × List CanonicalEvent → List CanonicalEvent
lines_of (_, events) = events

-- ReconciliationContext.erp_journals
unfoldable pub erp_journals : ReconciliationContext → String → List (List CanonicalEvent)
erp_journals context reference =
    let candidates =
      filter (λ (e : CanonicalEvent). is_erp e.source_type && same_scope context e)
        (get str_eq reference context.indexes.by_external_reference) in
    map (λ (entry : String × List CanonicalEvent). sort_by by_id (lines_of entry))
      (sort_by by_key (group_journals [] candidates))

-- day + timedelta(days=days)
unfoldable pub add_days : ℕ → ℤ → Result ℤ
unfolding ◌+ℤ◌
add_days day days =
    let sum = pos day +ℤ days in
    if ltb_ℤ sum (pos 1) || ltb_ℤ (pos 3652059) sum
    then err (overflow_error "date value out of range")
    else ok sum

abbrev pub is_bank_credit : EventType → Bool
is_bank_credit EventType.bank_credit = true
is_bank_credit _ = false

-- first <= value_date <= last
abbrev pub in_window : ℤ → ℤ → Option ℕ → Bool
in_window first last none = false
in_window first last (some day) = leb_ℤ first (pos day) && leb_ℤ (pos day) last

-- the key (value_date, event_id); candidates have a date
abbrev pub by_date_and_id : CanonicalEvent → CanonicalEvent → Bool
by_date_and_id a b = elim a.value_date [
  | none ↦ str_leb a.event_id b.event_id
  | some d ↦ elim b.value_date [
    | none ↦ str_leb a.event_id b.event_id
    | some e ↦ ltb d e || nat_eq d e && str_leb a.event_id b.event_id
  ]
]

unfoldable pub is_bank_candidate :
    ReconciliationContext → List String → ℤ → ℤ → CanonicalEvent → Bool
is_bank_candidate context consumed first last event =
    is_bank event.source_type
    && is_bank_credit event.event_type
    && is_credit event.direction
    && same_scope context event
    && not (contains event.event_id consumed)
    && in_window first last event.value_date

-- ReconciliationContext.bank_candidates
unfoldable pub bank_candidates :
    ReconciliationContext → ℕ → List String → Result (List CanonicalEvent)
bank_candidates context settlement_date consumed = do
  first ← add_days settlement_date context.policy.dates.settlement_to_bank_min_days
  last ← add_days settlement_date context.policy.dates.settlement_to_bank_max_days
  ok (
      sort_by by_date_and_id
        (filter (is_bank_candidate context consumed first last) context.events))
